-- ===== src/Runs/ResumeHitl.antt =====
-- apps/api/src/runs/application/resume-hitl.use-case.ts: a human's choice of ideas, or of the
-- outline, that lets a waiting run go on.
pub mod Laws
use content_chain.Prelude.{
  ℕ, suc, ◌≡◌, Bool, true, false, not, ◌&&◌, List, [], ◌∷◌, Option, none, some, if◌then◌else◌, ◌==◌,
  leb, length, all, includes,
}
use content_chain.Shared.Enums.{
  RunStatus, running, awaiting_hitl, same_status, RunTaskType, page_outline_then_copy,
  post_ideas_then_content, reel_ideas_then_scripts,
}
use content_chain.Shared.Exception.{
  Outcome, returned, throw, require, conflict, hitl_required, hitl_invalid_selection,
}
use content_chain.Shared.Actor.{AuthUserContext}
use content_chain.Guest.Policy.{assert_guest_owns_run}
use content_chain.Runs.Record.{RunRow, RunSnapshot}
use content_chain.Runs.Prisma.{PrismaClient}
use content_chain.Runs.Repository.{get_by_id, save_selected_idea_ids, set_selected}
use content_chain.Runs.World.{
  World, hitl_resumed, M, ◌>>=◌, ◌>>◌, return, lift, reading, on_table, notify,
}
use content_chain.Runs.Lifecycle.{transition, no_extras}
use content_chain.Runs.Cancel.{found_or_404}

-- apps/api/src/runs/domain/run-result-reader.port.ts, as far as it is read here: the identifiers of
-- a run's drafts.
pub record RunResultReader : Type 0 where
  pub list_ideas : ℕ → List ℕ
  pub list_reel_ideas : ℕ → List ℕ
  pub get_page_outline : ℕ → Option ℕ

-- `new Set(ids).size`
unfoldable pub set_size : List ℕ → ℕ
set_size [] = 0
set_size (x ∷ xs) = if includes xs x then set_size xs else suc (set_size xs)

-- A non-empty subset of the drafts, each named once.
unfoldable pub is_subset_selection : List ℕ → List ℕ → Bool
unfolding set_size
is_subset_selection drafts ids =
    leb 1 (length ids) && (set_size ids == length ids) && all (includes drafts) ids

-- Exactly the outline.
unfoldable pub is_outline_selection : ℕ → List ℕ → Bool
is_outline_selection outline [] = false
is_outline_selection outline (x ∷ []) = x == outline
is_outline_selection outline (x ∷ y ∷ ids) = false

outline_check : Option ℕ → List ℕ → Outcome (Unit {0})
outline_check none ids = throw conflict 409
outline_check (some outline) ids =
    require (is_outline_selection outline ids) hitl_invalid_selection 400

-- What the choice is checked against depends on the task; other tasks have no check.
unfoldable pub check_selection : RunResultReader → ℕ → RunTaskType → List ℕ → Outcome (Unit {0})
unfolding outline_check
check_selection results id page_outline_then_copy ids =
    outline_check (results.get_page_outline id) ids
check_selection results id post_ideas_then_content ids =
    require (is_subset_selection (results.list_ideas id) ids) hitl_invalid_selection 400
check_selection results id reel_ideas_then_scripts ids =
    require (is_subset_selection (results.list_reel_ideas id) ids) hitl_invalid_selection 400
check_selection results id _ ids = returned tt

module _ (db : PrismaClient) (results : RunResultReader) where
  unfoldable pub resume_hitl : ℕ → ℕ → List ℕ → AuthUserContext → M (Unit {0})
  resume_hitl now id ids actor = do
    found ← reading (get_by_id db id)
    run ← lift (found_or_404 found)
    lift (assert_guest_owns_run actor run.started_by_user_id)
    lift (require (same_status run.status awaiting_hitl) hitl_required 409)
    lift (check_selection results run.id run.task_type ids)
    on_table (save_selected_idea_ids db id ids)
    resumed ← transition db now run.run running no_extras
    notify (hitl_resumed (set_selected ids resumed))
