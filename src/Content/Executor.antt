-- ===== src/Content/Executor.antt =====
-- apps/api/src/content/application/content-run.executor.ts: a claimed page run, up to its next status.
pub mod Laws
pub mod Claimed
pub mod Resumed
use Prim.Native.String.{String}
use content_chain.Prelude.{
  ℕ, Bool, true, false, not, ◌&&◌, List, [], ◌∷◌, Option, none, some, if◌then◌else◌, ◌==◌, get_or,
}
use content_chain.Shared.Enums.{
  RunTaskType, page_copy, page_outline_then_copy, same_task_type, ContentKind, is_content_task_type,
  awaiting_hitl, completed, failed,
}
use content_chain.Shared.Exception.{DomainException, Outcome, returned, thrown, rejected}
use content_chain.Runs.Record.{RunRow, PipelinePhase, outline, copy}
use content_chain.Runs.Prisma.{PrismaClient}
use content_chain.Runs.World.{World}
use content_chain.Runs.Lifecycle.{TransitionExtras, no_extras}
use content_chain.Runs.Executor.{Job, failing, move, moved_job, synced, caught, guarded}
use content_chain.Content.Types.{
  ContentPipelinePhase, outline_phase, copy_phase, PageOutline, ContentPipelineState,
  ContentResults,
}
use content_chain.Content.Graph.{Services}
use content_chain.Content.Graph.Walk.{is_copy}
use content_chain.Content.Facade.{
  ContentPipelineOutcome, pipeline_completed, pipeline_awaiting_hitl, pipeline_failed, counts_of,
  invoke_phase,
}

abbrev pub has_selection : Option (List ℕ) → Bool
has_selection (some (x ∷ xs)) = true
has_selection _ = false

abbrev pub is_canonical_outline_selection : Option (List ℕ) → Option PageOutline → Bool
is_canonical_outline_selection (some (x ∷ [])) (some drawn) = x == drawn.id
is_canonical_outline_selection _ _ = false

unfoldable pub resolve_phase : RunRow → Option ContentPipelinePhase → ContentPipelinePhase
resolve_phase run before =
    if same_task_type run.task_type page_copy
    then copy_phase
    else (if same_task_type run.task_type page_outline_then_copy
          && has_selection run.selected_idea_ids
        then copy_phase
        else get_or before outline_phase)

-- What `execute` decides before it invokes the graph.
pub data Plan : Type 0 where
  fail_with : String → String → Plan
  await_choice : PageOutline → Plan
  go_on : ContentKind → ContentPipelinePhase → Plan

abbrev pub bad_selection : Plan
bad_selection = fail_with "HITL_INVALID_SELECTION" "selectedIdeaIds must be exactly [outline.id]"

-- The phase, once no choice is missing.
unfoldable pub plan_phase : RunRow → ContentKind → Option PageOutline → ContentPipelinePhase → Plan
plan_phase run kind drawn phase =
    if same_task_type run.task_type page_outline_then_copy
      && is_copy phase
      && not (is_canonical_outline_selection run.selected_idea_ids drawn)
    then bad_selection
    else go_on kind phase

unfoldable pub plan_choice : RunRow → ContentKind → Option PageOutline → Plan → Plan
plan_choice run kind (some drawn) next =
    if same_task_type run.task_type page_outline_then_copy
      && not (has_selection run.selected_idea_ids)
    then await_choice drawn
    else next
plan_choice run kind none next = next

unfoldable pub plan_kind : RunRow → Option ContentKind → ContentResults → Plan
unfolding plan_phase plan_choice resolve_phase
plan_kind run none store =
    fail_with "CONTENT_KIND_REQUIRED" "contentKind is required for page tasks"
plan_kind run (some kind) store =
    if same_task_type run.task_type page_outline_then_copy
      && has_selection run.selected_idea_ids
      && not (is_canonical_outline_selection run.selected_idea_ids store.outline)
    then bad_selection
    else plan_choice run kind store.outline
        (plan_phase run kind store.outline (resolve_phase run store.pipeline.phase))

unfoldable pub plan : RunRow → ContentResults → Plan
unfolding plan_kind
plan run store = plan_kind run run.content_kind store

abbrev pub pipeline_state : ContentPipelinePhase → ℕ → ℕ → ContentPipelineState
pipeline_state phase outline_count copy_count = record {
  phase = some phase;
  outline_refine_count = outline_count;
  copy_refine_count = copy_count;
}

-- The data of the update in prisma-content-result.adapter.ts.
abbrev pub phase_column : Option ContentPipelinePhase → Option PipelinePhase
phase_column none = none
phase_column (some outline_phase) = some outline
phase_column (some copy_phase) = some copy

abbrev pub with_pipeline : ContentPipelineState → RunRow → RunRow
with_pipeline p r = record r {
  pipeline_phase = phase_column p.phase;
  outline_refine_count = p.outline_refine_count;
  copy_refine_count = p.copy_refine_count;
}

module _ {C W : Type 0} (db : PrismaClient) (services : Services C W) (signal : W → Bool)
    (message : DomainException → String) (now : ℕ) (run : RunRow) where
  -- The world with what the pipeline has written.
  unfoldable pub page_synced : ContentResults × W → World → World
  unfolding synced
  page_synced (store, w) = synced db run.id (with_pipeline store.pipeline) (services.logged w)

  -- The transition that an outcome asks for.
  unfoldable pub finish :
      ContentPipelinePhase → ContentPipelineOutcome → World → Outcome (Unit {0}) × World
  unfolding move
  finish phase (pipeline_awaiting_hitl drawn _) =
      move db now run awaiting_hitl (record no_extras { hitl_options = some (drawn.id ∷ []) })
  finish phase (pipeline_failed code text _ _) = move db now run failed (failing code text)
  finish phase (pipeline_completed _ _ _) = move db now run completed (record no_extras {
    result_summary = some (if is_copy phase then "pageDocument" else "outline");
  })

  -- The outcome, once the state of the pipeline is saved.
  unfoldable pub page_stored :
      ContentPipelinePhase
      → ContentPipelineOutcome
      → ContentResults
      → Outcome (Unit {0}) × W
      → World
      → Outcome (Unit {0}) × Job ContentResults W
  unfolding finish guarded caught page_synced
  page_stored phase outcome store (thrown e, w) world =
      caught db signal message now run e (store, w) (page_synced (store, w) world)
  page_stored phase outcome store (returned _, w) world =
      let counts = counts_of outcome in
      let held : ContentResults × W = (
        record store {
          pipeline = pipeline_state phase counts.outline_refine_count counts.copy_refine_count;
        },
        w,
      ) in
      guarded db signal message now run (finish phase outcome (page_synced held world)) held

  unfoldable pub page_answered :
      ContentPipelinePhase
      → Outcome ContentPipelineOutcome × (ContentResults × W)
      → World
      → Outcome (Unit {0}) × Job ContentResults W
  unfolding page_stored caught page_synced
  page_answered phase (thrown e, held) world =
      caught db signal message now run e held (page_synced held world)
  page_answered phase (returned outcome, (store, w)) world =
      page_stored phase outcome store (services.write w) world

  unfoldable pub answered_if :
      ContentPipelinePhase
      → Option (Outcome ContentPipelineOutcome × (ContentResults × W))
      → World
      → Option (Outcome (Unit {0}) × Job ContentResults W)
  unfolding page_answered
  answered_if phase none world = none
  answered_if phase (some r) world = some (page_answered phase r world)

  -- From the first write of the pipeline's state on.
  unfoldable pub launched :
      ContentKind
      → ContentPipelinePhase
      → ContentResults
      → Outcome (Unit {0}) × W
      → World
      → Option (Outcome (Unit {0}) × Job ContentResults W)
  unfolding answered_if invoke_phase page_synced
  launched kind phase store (thrown e, w) world = some (thrown e, ((store, w), world))
  launched kind phase store (returned _, w) world =
      let counts = store.pipeline in
      let store' : ContentResults = record store {
        pipeline = pipeline_state phase counts.outline_refine_count counts.copy_refine_count;
      } in
      if signal w
      then some (returned tt, ((store', w), page_synced (store', w) world))
      else answered_if phase (invoke_phase services run kind phase store.outline counts (store', w))
          world

  unfoldable pub begun :
      Plan → Job ContentResults W → Option (Outcome (Unit {0}) × Job ContentResults W)
  unfolding launched move moved_job
  begun (fail_with code text) (held, world) =
      some (moved_job (move db now run failed (failing code text) world) held)
  begun (await_choice drawn) (held, world) = some (
      moved_job
        (move db now run awaiting_hitl (record no_extras { hitl_options = some (drawn.id ∷ []) })
          world)
        held)
  begun (go_on kind phase) ((store, w), world) = launched kind phase store (services.write w) world

  unfoldable pub execute : Job ContentResults W → Option (Outcome (Unit {0}) × Job ContentResults W)
  unfolding begun plan
  execute ((store, w), world) =
      if is_content_task_type run.task_type
      then begun (plan run store) ((store, w), world)
      else some (rejected, ((store, w), world))
