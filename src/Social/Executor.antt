-- ===== src/Social/Executor.antt =====
-- apps/api/src/social/application/social-run.executor.ts: a claimed social run, up to its next status.
pub mod Laws
use Prim.Native.String.{String, ◌++◌}
use content_chain.Prelude.{
  ℕ, Bool, true, false, not, ◌&&◌, ◌||◌, List, [], ◌∷◌, Option, none, some, if◌then◌else◌, get_or,
  length,
}
use content_chain.Shared.Enums.{
  RunTaskType, post_content, post_ideas_then_content, reel_script, reel_ideas_then_scripts,
  same_task_type, is_social_task_type, awaiting_hitl, completed, failed,
}
use content_chain.Shared.Exception.{DomainException, Outcome, returned, thrown, rejected}
use content_chain.Runs.Record.{RunRow, PipelinePhase, ideas, content}
use content_chain.Runs.Prisma.{PrismaClient}
use content_chain.Runs.World.{World}
use content_chain.Runs.Lifecycle.{TransitionExtras, no_extras}
use content_chain.Runs.Executor.{Job, failing, move, moved_job, synced, caught, guarded}
use content_chain.Social.Types.{
  SocialPhase, ideas_phase, content_phase, SocialIdea, ReelIdea, SocialPipelineState, SocialResults,
  is_reel_task_type, is_two_stage_social_task,
}
use content_chain.Social.Graph.{SocialServices, idea_ids, reel_idea_ids}
use content_chain.Social.Graph.Walk.{is_content}
use content_chain.Social.Facade.{
  SocialPipelineOutcome, social_completed, social_awaiting_hitl, social_failed, SocialExtras,
  selects, invoke_social_phase,
}

unfoldable pub resolve_social_phase : RunRow → Option SocialPhase → SocialPhase
resolve_social_phase run stored =
    if same_task_type run.task_type post_content || same_task_type run.task_type reel_script
    then content_phase
    else (if is_two_stage_social_task run.task_type && selects run.selected_idea_ids
        then content_phase
        else get_or stored ideas_phase)

-- The ideas that wait for a choice before the graph is invoked.
abbrev pub some_ids : List ℕ → Option (List ℕ)
some_ids [] = none
some_ids (x ∷ xs) = some (x ∷ xs)

unfoldable pub awaited_ids : RunRow → SocialResults → Option (List ℕ)
awaited_ids run store =
    if selects run.selected_idea_ids
    then none
    else (if same_task_type run.task_type post_ideas_then_content
        then some_ids (idea_ids store.ideas)
        else (if same_task_type run.task_type reel_ideas_then_scripts
            then some_ids (reel_idea_ids store.reel_ideas)
            else none))

-- `number_text` is `String(n)`.
unfoldable pub summary_of :
    (ℕ → String) → RunRow → SocialPhase → List SocialIdea → List ReelIdea → String
summary_of number_text run phase drawn reels =
    if is_reel_task_type run.task_type
    then (if is_content phase then "reelScript" else "reelIdeas:" ++ number_text (length reels))
    else (if is_content phase then "content" else "ideas:" ++ number_text (length drawn))

abbrev pub options_of : List SocialIdea → List ReelIdea → List ℕ
options_of drawn [] = idea_ids drawn
options_of drawn (r ∷ reels) = reel_idea_ids (r ∷ reels)

abbrev pub extras_of : SocialResults → SocialExtras
extras_of store = record {
  ideas = store.ideas;
  reel_ideas = store.reel_ideas;
  ideas_refine_count = store.pipeline.ideas_refine_count;
  content_refine_count = store.pipeline.content_refine_count;
}

abbrev pub with_phase : SocialPhase → SocialResults → SocialResults
with_phase phase store = record store { pipeline = record store.pipeline { phase = some phase } }

-- The data of the update in prisma-social-result.adapter.ts.
abbrev pub social_phase_column : Option SocialPhase → Option PipelinePhase
social_phase_column none = none
social_phase_column (some ideas_phase) = some ideas
social_phase_column (some content_phase) = some content

abbrev pub with_social_pipeline : SocialPipelineState → RunRow → RunRow
with_social_pipeline p r = record r {
  pipeline_phase = social_phase_column p.phase;
  ideas_refine_count = p.ideas_refine_count;
  content_refine_count = p.content_refine_count;
}

module _ {C W : Type 0} (db : PrismaClient) (services : SocialServices C W) (signal : W → Bool)
    (message : DomainException → String) (number_text : ℕ → String) (now : ℕ) (run : RunRow) where
  -- The world with what the pipeline has written.
  unfoldable pub social_synced : SocialResults × W → World → World
  unfolding synced
  social_synced (store, w) =
      synced db run.id (with_social_pipeline store.pipeline) (services.logged w)

  unfoldable pub finish_social :
      SocialPhase → SocialPipelineOutcome → World → Outcome (Unit {0}) × World
  unfolding move summary_of
  finish_social phase (social_awaiting_hitl drawn reels) =
      move db now run awaiting_hitl
        (record no_extras { hitl_options = some (options_of drawn reels) })
  finish_social phase (social_failed code text _) = move db now run failed (failing code text)
  finish_social phase (social_completed drawn _ reels _) =
      move db now run completed
        (record no_extras { result_summary = some (summary_of number_text run phase drawn reels) })

  unfoldable pub social_answered :
      SocialPhase
      → Outcome SocialPipelineOutcome × (SocialResults × W)
      → World
      → Outcome (Unit {0}) × Job SocialResults W
  unfolding finish_social guarded caught social_synced
  social_answered phase (thrown e, held) world =
      caught db signal message now run e held (social_synced held world)
  social_answered phase (returned outcome, held) world =
      guarded db signal message now run (finish_social phase outcome (social_synced held world))
        held

  unfoldable pub social_answered_if :
      SocialPhase
      → Option (Outcome SocialPipelineOutcome × (SocialResults × W))
      → World
      → Option (Outcome (Unit {0}) × Job SocialResults W)
  unfolding social_answered
  social_answered_if phase none world = none
  social_answered_if phase (some q) world = some (social_answered phase q world)

  -- From the write of the pipeline's state on.
  unfoldable pub social_launched :
      SocialPhase
      → SocialResults
      → Outcome (Unit {0}) × W
      → World
      → Option (Outcome (Unit {0}) × Job SocialResults W)
  unfolding social_answered_if invoke_social_phase social_synced
  social_launched phase store (thrown e, w) world = some (thrown e, ((store, w), world))
  social_launched phase store (returned _, w) world =
      if signal w
      then some (
        returned tt,
        ((with_phase phase store, w), social_synced (with_phase phase store, w) world),
      )
      else social_answered_if phase
          (invoke_social_phase services run phase (extras_of store) (with_phase phase store, w))
          world

  unfoldable pub social_begun :
      Option (List ℕ) → Job SocialResults W → Option (Outcome (Unit {0}) × Job SocialResults W)
  unfolding social_launched resolve_social_phase move moved_job
  social_begun (some ids) (held, world) = some (
      moved_job (move db now run awaiting_hitl (record no_extras { hitl_options = some ids }) world)
        held)
  social_begun none ((store, w), world) =
      social_launched (resolve_social_phase run store.pipeline.phase) store (services.write w) world

  unfoldable pub execute_social :
      Job SocialResults W → Option (Outcome (Unit {0}) × Job SocialResults W)
  unfolding social_begun awaited_ids
  execute_social ((store, w), world) =
      if is_social_task_type run.task_type
      then social_begun (awaited_ids run store) ((store, w), world)
      else some (rejected, ((store, w), world))
