-- ===== src/Content/Executor/Resumed.antt =====
-- The choice that a human makes of an outline, as its check and as the executor see it.
use content_chain.Prelude.{ℕ, ◌≡◌, ◌↔◌, true, List, [], ◌∷◌, some, arith}
use content_chain.Shared.Enums.{page_outline_then_copy, ContentKind}
use content_chain.Runs.Record.{RunRow}
use content_chain.Runs.Repository.{set_selected}
use content_chain.Runs.ResumeHitl.{is_outline_selection}
use content_chain.Content.Types.{copy_phase, PageOutline, ContentResults}
use content_chain.Content.Executor.{go_on, plan, plan_kind, plan_choice, plan_phase, resolve_phase}

-- For a run of both phases whose outline is stored, the check of the resumption accepts a choice
-- exactly when the executor, with that choice stored, goes on to the copy phase.
pub plan-is_outline_selection :
    (run : RunRow) (kind : ContentKind) (o : PageOutline) (store : ContentResults) (ids : List ℕ)
    → run.task_type ≡ page_outline_then_copy
    → run.content_kind ≡ some kind
    → store.outline ≡ some o
    → (is_outline_selection o.id ids ≡ true)
      ↔ (plan (set_selected ids run) store ≡ go_on kind copy_phase)
unfolding plan plan_kind plan_choice plan_phase resolve_phase is_outline_selection
plan-is_outline_selection run kind o store [] t k s = ground arith
plan-is_outline_selection run kind o store (x ∷ []) t k s = ground arith
plan-is_outline_selection run kind o store (x ∷ y ∷ ids) t k s = ground arith
