-- ===== src/Content/Facade.antt =====
-- apps/api/src/content/application/content-pipeline.facade.ts: one phase of the graph, and what it
-- means for the run.
pub mod Laws
use Prim.Native.String.{String}
use content_chain.Prelude.{
  ℕ, Bool, true, false, ◌&&◌, List, Option, none, some, if◌then◌else◌, get_or,
}
use content_chain.Shared.Enums.{
  RunTaskType, page_outline_then_copy, same_task_type, ContentKind, is_content_task_type,
}
use content_chain.Shared.Exception.{Outcome, returned, thrown, rejected}
use content_chain.Runs.Record.{RunRow}
use content_chain.Content.Types.{
  ContentPipelinePhase, outline_phase, copy_phase, PageOutline, PageDocument, VerifierVerdict,
  ContentPipelineState, ContentGraphState,
}
use content_chain.Content.Graph.{Services, Held}
use content_chain.Content.Graph.Walk.{is_copy, invoke}
use content_chain.Prelude.{not}

pub record ContentRefineSnapshot : Type 0 where
  pub outline_refine_count : ℕ
  pub copy_refine_count : ℕ

pub data ContentPipelineOutcome : Type 0 where
  pipeline_completed :
      Option PageOutline → Option PageDocument → ContentRefineSnapshot → ContentPipelineOutcome
  pipeline_awaiting_hitl : PageOutline → ContentRefineSnapshot → ContentPipelineOutcome
  -- The code, the message, and the issues of the last verdict.
  pipeline_failed :
      String → String → Option VerifierVerdict → ContentRefineSnapshot → ContentPipelineOutcome

abbrev pub refine_of : {C : Type 0} → ContentGraphState C → ContentRefineSnapshot
refine_of s = record {
  outline_refine_count = s.outline_refine_count;
  copy_refine_count = s.copy_refine_count;
}

abbrev pub counts_of : ContentPipelineOutcome → ContentRefineSnapshot
counts_of (pipeline_completed _ _ counts) = counts
counts_of (pipeline_awaiting_hitl _ counts) = counts
counts_of (pipeline_failed _ _ _ counts) = counts

pub waiting : Option PageOutline → ContentRefineSnapshot → Outcome ContentPipelineOutcome
waiting none counts = rejected
waiting (some drawn) counts = returned (pipeline_awaiting_hitl drawn counts)

unfoldable pub with_code :
    {C : Type 0}
    → Option String
    → RunTaskType
    → ContentPipelinePhase
    → ContentGraphState C
    → Outcome ContentPipelineOutcome
unfolding waiting
with_code (some code) type phase s =
    returned
      (pipeline_failed code (get_or s.failed_message "pipeline failed") s.verdict (refine_of s))
with_code none type phase s =
    if not (is_copy phase) && same_task_type type page_outline_then_copy
    then waiting s.outline (refine_of s)
    else returned (pipeline_completed s.outline s.document (refine_of s))

unfoldable pub to_outcome :
    {C : Type 0}
    → RunTaskType
    → ContentPipelinePhase
    → ContentGraphState C
    → Outcome ContentPipelineOutcome
unfolding with_code
to_outcome type phase s = with_code s.failed_code type phase s

-- The input of the graph.
abbrev pub input_of :
    {C : Type 0}
    → RunRow
    → ContentKind
    → ContentPipelinePhase
    → Option PageOutline
    → ContentPipelineState
    → ContentGraphState C
input_of run kind phase drawn counts = record {
  task_type = run.task_type;
  content_kind = kind;
  language = run.language;
  brief = run.brief;
  phase = phase;
  company = none;
  outline = drawn;
  document = none;
  verdict = none;
  outline_refine_count = counts.outline_refine_count;
  copy_refine_count = counts.copy_refine_count;
  failed_code = none;
  failed_message = none;
}

module _ {C W : Type 0} (services : Services C W) where
  unfoldable pub concluded :
      RunTaskType
      → ContentPipelinePhase
      → Outcome (ContentGraphState C) × Held services
      → Outcome ContentPipelineOutcome × Held services
  unfolding to_outcome
  concluded type phase (thrown e, held) = (thrown e, held)
  concluded type phase (returned s, held) = (to_outcome type phase s, held)

  unfoldable pub if_ended :
      RunTaskType
      → ContentPipelinePhase
      → Option (Outcome (ContentGraphState C) × Held services)
      → Option (Outcome ContentPipelineOutcome × Held services)
  unfolding concluded
  if_ended type phase none = none
  if_ended type phase (some r) = some (concluded type phase r)

  -- Fuel 3 is enough for the graph to end.
  unfoldable pub invoke_phase :
      RunRow
      → ContentKind
      → ContentPipelinePhase
      → Option PageOutline
      → ContentPipelineState
      → Held services
      → Option (Outcome ContentPipelineOutcome × Held services)
  unfolding if_ended
  invoke_phase run kind phase drawn counts held =
      if is_content_task_type run.task_type
      then if_ended run.task_type phase
          (invoke services 3 (input_of run kind phase drawn counts) held)
      else some (rejected, held)
