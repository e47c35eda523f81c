-- ===== src/Social/Facade.antt =====
-- apps/api/src/social/application/social-pipeline.facade.ts: one phase of a run, which in the second
-- stage takes one hop of the graph for each selected idea.
pub mod Laws
use Prim.Native.String.{String}
use content_chain.Prelude.{
  ℕ, Bool, true, false, not, ◌&&◌, ◌||◌, List, [], ◌∷◌, Option, none, some, if◌then◌else◌, get_or,
}
use content_chain.Shared.Enums.{
  RunTaskType, post_ideas_then_content, reel_ideas_then_scripts, same_task_type,
  is_social_task_type,
}
use content_chain.Shared.Exception.{Outcome, returned, thrown, rejected}
use content_chain.Runs.Record.{RunRow, is_social_platform}
use content_chain.Content.Types.{VerifierVerdict}
use content_chain.Social.Types.{
  SocialPhase, SocialIdea, SocialContent, ReelIdea, ReelScript, SocialPipelineState, SocialResults,
  SocialGraphState, is_reel_task_type, is_two_stage_social_task,
}
use content_chain.Social.Graph.{SocialServices, Shelf, SocialAnswer}
use content_chain.Social.Graph.Walk.{is_content, invoke_graph}

pub data SocialPipelineOutcome : Type 0 where
  social_completed :
      List SocialIdea
      → Option SocialContent
      → List ReelIdea
      → Option ReelScript
      → SocialPipelineOutcome
  social_awaiting_hitl : List SocialIdea → List ReelIdea → SocialPipelineOutcome
  -- The code, the message, and the last verdict, whose issues go with it.
  social_failed : String → String → Option VerifierVerdict → SocialPipelineOutcome

unfoldable pub ended_with :
    {C : Type 0}
    → Option String
    → RunTaskType
    → SocialPhase
    → SocialGraphState C
    → SocialPipelineOutcome
ended_with (some code) type phase s =
    social_failed code (get_or s.failed_message "pipeline failed") s.verdict
ended_with none type phase s =
    if not (is_content phase) && same_task_type type post_ideas_then_content
    then social_awaiting_hitl s.ideas []
    else (if not (is_content phase) && same_task_type type reel_ideas_then_scripts
        then social_awaiting_hitl [] s.reel_ideas
        else social_completed s.ideas s.content s.reel_ideas s.reel_script)

-- `toOutcome`
unfoldable pub social_to_outcome :
    {C : Type 0} → RunTaskType → SocialPhase → SocialGraphState C → SocialPipelineOutcome
unfolding ended_with
social_to_outcome type phase s = ended_with s.failed_code type phase s

-- `extras`
pub record SocialExtras : Type 0 where
  pub ideas : List SocialIdea
  pub reel_ideas : List ReelIdea
  pub ideas_refine_count : ℕ
  pub content_refine_count : ℕ

-- `baseInput` with a selection.
abbrev pub base_input :
    {C : Type 0} → RunRow → SocialPhase → SocialExtras → Option (List ℕ) → SocialGraphState C
base_input run phase extras selection = record {
  task_type = run.task_type;
  platform = run.platform;
  language = run.language;
  brief = run.brief;
  selected_idea_ids = selection;
  phase = phase;
  company = none;
  ideas = extras.ideas;
  content = none;
  reel_ideas = extras.reel_ideas;
  reel_script = none;
  verdict = none;
  ideas_refine_count = extras.ideas_refine_count;
  content_refine_count = extras.content_refine_count;
  failed_code = none;
  failed_message = none;
}

-- `clearReelScripts` or `clearContents`
abbrev pub cleared : Bool → SocialResults → SocialResults
cleared true store = record store { reel_scripts = [] }
cleared false store = record store { contents = [] }

abbrev pub selects : Option (List ℕ) → Bool
selects (some (x ∷ xs)) = true
selects _ = false

abbrev pub selected_of : Option (List ℕ) → List ℕ
selected_of none = []
selected_of (some ids) = ids

module _ {C W : Type 0} (services : SocialServices C W) (run : RunRow) (phase : SocialPhase)
    (extras : SocialExtras) where
  abbrev pub Phased : Type 0
  Phased = Option (Outcome SocialPipelineOutcome × Shelf services)

  -- An outcome that is not a failure goes on to the next hop.
  unfoldable pub unless_failed :
      (SocialPipelineOutcome → Shelf services → Phased)
      → SocialPipelineOutcome
      → Shelf services
      → Phased
  unless_failed k (social_failed code text v) held =
      some (returned (social_failed code text v), held)
  unless_failed k (social_awaiting_hitl i r) held = k (social_awaiting_hitl i r) held
  unless_failed k (social_completed i c r q) held = k (social_completed i c r q) held

  unfoldable pub after_hop :
      (SocialPipelineOutcome → Shelf services → Phased) → Option (SocialAnswer services) → Phased
  unfolding unless_failed social_to_outcome
  after_hop k none = none
  after_hop k (some (thrown e, held)) = some (thrown e, held)
  after_hop k (some (returned s, held)) =
      unless_failed k (social_to_outcome run.task_type phase s) held

  unfoldable pub last_outcome : Option SocialPipelineOutcome → Outcome SocialPipelineOutcome
  last_outcome none = rejected
  last_outcome (some outcome) = returned outcome

  -- The loop over the selected ideas, with the outcome of the last hop.
  unfoldable pub each_hop : List ℕ → Option SocialPipelineOutcome → Shelf services → Phased
  unfolding after_hop last_outcome
  each_hop [] last held = some (last_outcome last, held)
  each_hop (id ∷ ids) last held =
      after_hop (λ outcome. each_hop ids (some outcome))
        (invoke_graph services 3 (base_input run phase extras (some (id ∷ []))) held)

  unfoldable pub after_clear : SocialResults → Outcome (Unit {0}) × W → Phased
  unfolding each_hop
  after_clear store (thrown e, w) = some (thrown e, (store, w))
  after_clear store (returned _, w) =
      each_hop (selected_of run.selected_idea_ids) none
        (cleared (is_reel_task_type run.task_type) store, w)

  unfoldable pub single : Option (SocialAnswer services) → Phased
  unfolding social_to_outcome
  single none = none
  single (some (thrown e, held)) = some (thrown e, held)
  single (some (returned s, held)) = some (returned (social_to_outcome run.task_type phase s), held)

  unfoldable pub invoke_social_phase : Shelf services → Phased
  unfolding after_clear single
  invoke_social_phase (store, w) =
      if not (is_social_task_type run.task_type && is_social_platform run.platform)
      then some (rejected, (store, w))
      else (if is_content phase
            && is_two_stage_social_task run.task_type
            && selects run.selected_idea_ids
          then after_clear store (services.write w)
          else single (
              invoke_graph services 3 (base_input run phase extras run.selected_idea_ids)
                (store, w)))
