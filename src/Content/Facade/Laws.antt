-- ===== src/Content/Facade/Laws.antt =====
-- A phase of the graph ends, and its outcome is what the store holds.
use Prim.Native.String.{String}
use content_chain.Prelude.{
  ◌≡◌, refl, ◌∙◌, sym, true, false, Option, none, some, Bool-cases, is_some, inl, inr,
}
use content_chain.Shared.Enums.{
  RunTaskType, page_outline_then_copy, same_task_type, ContentKind, is_content_task_type,
}
use content_chain.Shared.Exception.{Outcome, returned, thrown}
use content_chain.Runs.Record.{RunRow}
use content_chain.Content.Types.{
  ContentPipelinePhase, outline_phase, copy_phase, PageOutline, PageDocument, VerifierVerdict,
  ContentPipelineState, ContentResults, ContentGraphState,
}
use content_chain.Content.Graph.{Services, Held}
use content_chain.Content.Graph.Walk.{is_copy, invoke}
use content_chain.Content.Graph.Ends.{invoke_ends}
use content_chain.Content.Graph.Delivers.{Stored, DeliversIfAny, invoke-Delivers}
use content_chain.Content.Facade.{
  ContentPipelineOutcome, refine_of, pipeline_completed, pipeline_awaiting_hitl, pipeline_failed,
  waiting, with_code, to_outcome, input_of, concluded, if_ended, invoke_phase,
}

-- What an outcome says of the store: a completed outline phase has its outline there, a completed
-- copy phase its document, with a verdict that is ok; a choice is about the outline that is there.
abbrev pub Told : ContentPipelinePhase → ContentPipelineOutcome → ContentResults → Type 0
Told phase (pipeline_failed _ _ _ _) store = Unit
Told phase (pipeline_awaiting_hitl drawn _) store = store.outline ≡ some drawn
Told copy_phase (pipeline_completed _ document _) store =
    (d : PageDocument) × (v : VerifierVerdict) × (document ≡ some d)
    × (store.document ≡ some (d, v))
    × (v.ok ≡ true)
Told outline_phase (pipeline_completed drawn _ _) store =
    (o : PageOutline) × (drawn ≡ some o) × (store.outline ≡ some o)

abbrev pub Tells :
    {W : Type 0}
    → ContentPipelinePhase
    → Outcome ContentPipelineOutcome × (ContentResults × W)
    → Type 0
Tells phase (thrown e, held) = Unit
Tells phase (returned outcome, held) = Told phase outcome held.0

module _ {C W : Type 0} (services : Services C W) where
  waiting-Tells :
      (o : Option PageOutline) (s : ContentGraphState C) (held : Held services)
      → s.outline ≡ o
      → Stored services false s held.0
      → Tells outline_phase (waiting o (refine_of s), held)
  unfolding waiting
  waiting-Tells none s held e (d, drawn, there) = tt
  waiting-Tells (some o) s held e (d, drawn, there) = there ∙ sym drawn ∙ e

  with_code-Tells :
      (code : Option String) (type : RunTaskType) (phase : ContentPipelinePhase)
      (s : ContentGraphState C) (held : Held services)
      → (code ≡ none → Stored services (is_copy phase) s held.0)
      → Tells phase (with_code code type phase s, held)
  unfolding with_code
  with_code-Tells (some code) type phase s held f = tt
  with_code-Tells none type copy_phase s held f = f refl
  with_code-Tells none type outline_phase s held f =
      elim (Bool-cases (same_task_type type page_outline_then_copy)) [
        | inl two_phases ↦ rw two_phases (waiting-Tells s.outline s held refl (f refl))
        | inr one_phase ↦ rw one_phase (f refl)
      ]

  concluded-Tells :
      (type : RunTaskType) (phase : ContentPipelinePhase)
      (r : Outcome (ContentGraphState C) × Held services)
      → DeliversIfAny services (is_copy phase) (some r)
      → Tells phase (concluded services type phase r)
  unfolding concluded to_outcome
  concluded-Tells type phase (thrown e, held) f = tt
  concluded-Tells type phase (returned s, held) f =
      with_code-Tells s.failed_code type phase s held f

  abbrev pub TellsIfAny :
      ContentPipelinePhase → Option (Outcome ContentPipelineOutcome × Held services) → Type 0
  TellsIfAny phase none = ⊥
  TellsIfAny phase (some r) = Tells phase r

  if_ended-Tells :
      (type : RunTaskType) (phase : ContentPipelinePhase)
      (o : Option (Outcome (ContentGraphState C) × Held services))
      → is_some o ≡ true
      → DeliversIfAny services (is_copy phase) o
      → TellsIfAny phase (if_ended services type phase o)
  unfolding if_ended
  if_ended-Tells type phase none e f = cc
  if_ended-Tells type phase (some r) e f = concluded-Tells type phase r f

  -- For a page run, whatever the services answer, the phase ends; an outcome of it is what the store
  -- holds by then.
  pub invoke_phase-Tells :
      (run : RunRow) (kind : ContentKind) (phase : ContentPipelinePhase)
      (drawn : Option PageOutline) (counts : ContentPipelineState) (held : Held services)
      → is_content_task_type run.task_type ≡ true
      → TellsIfAny phase (invoke_phase services run kind phase drawn counts held)
  unfolding invoke_phase
  invoke_phase-Tells run kind phase drawn counts held page =
      let s = input_of run kind phase drawn counts in
      rw page (
        if_ended-Tells run.task_type phase (invoke services 3 s held) (invoke_ends services s held)
          (invoke-Delivers services 3 s held))
