-- ===== src/Social/Types.antt =====
-- apps/api/src/social/domain: ideas, posts and reels, and what is stored of a run. Identifiers are
-- tokens that are not empty. A post's body is the list of its UTF-16 code units.
use Prim.Native.String.{String}
use content_chain.Prelude.{ℕ, Bool, true, false, List, [], ◌∷◌, ◌++◌, Option, if◌then◌else◌, all}
use content_chain.Shared.Enums.{
  RunTaskType, post_ideas_then_content, reel_ideas, reel_script, reel_ideas_then_scripts,
  RunPlatform, ContentLanguage,
}
use content_chain.Shared.Llm.ParseJson.{Text}
use content_chain.Runs.Record.{Brief}
use content_chain.Content.Types.{VerifierVerdict}

pub data SocialPhase : Type 0 where
  ideas_phase content_phase : SocialPhase

pub record SocialIdea : Type 0 where
  pub id : ℕ
  pub title : String
  pub angle : String
  pub hook : String
  pub cta : Option String

pub record SocialContent : Type 0 where
  pub body : Text
  pub hashtags : List String
  pub cta : Option String
  pub character_count : ℕ
  pub source_idea_id : Option ℕ

pub record ReelIdea : Type 0 where
  pub id : ℕ
  pub title : String
  pub description : String
  pub hook : String
  pub duration_seconds : ℕ
  pub cta : Option String

pub record ReelScriptSegment : Type 0 where
  pub start_seconds : ℕ
  pub end_seconds : ℕ
  pub on_screen : String
  pub voiceover : String

pub record ReelScript : Type 0 where
  pub segments : List ReelScriptSegment
  pub cta : String
  pub notes : Option String
  pub source_idea_id : Option ℕ

pub record SocialPipelineState : Type 0 where
  pub phase : Option SocialPhase
  pub ideas_refine_count : ℕ
  pub content_refine_count : ℕ

-- What the result store holds of the run, each list in the order of its creation. `pipeline` is the
-- three columns of the run's row that `savePipelineState` updates, until the executor brings the table
-- of the runs up to them.
pub record SocialResults : Type 0 where
  pub ideas : List SocialIdea
  pub reel_ideas : List ReelIdea
  pub contents : List (SocialContent × VerifierVerdict)
  pub reel_scripts : List (ReelScript × VerifierVerdict)
  pub pipeline : SocialPipelineState

-- infrastructure/graph/state.ts, over the company's context.
pub record SocialGraphState (C : Type 0) : Type 0 where
  pub task_type : RunTaskType
  pub platform : RunPlatform
  pub language : ContentLanguage
  pub brief : Brief
  pub selected_idea_ids : Option (List ℕ)
  pub phase : SocialPhase
  pub company : Option C
  pub ideas : List SocialIdea
  pub content : Option SocialContent
  pub reel_ideas : List ReelIdea
  pub reel_script : Option ReelScript
  pub verdict : Option VerifierVerdict
  pub ideas_refine_count : ℕ
  pub content_refine_count : ℕ
  pub failed_code : Option String
  pub failed_message : Option String

abbrev pub is_reel_task_type : RunTaskType → Bool
is_reel_task_type reel_ideas = true
is_reel_task_type reel_script = true
is_reel_task_type reel_ideas_then_scripts = true
is_reel_task_type _ = false

abbrev pub is_two_stage_social_task : RunTaskType → Bool
is_two_stage_social_task post_ideas_then_content = true
is_two_stage_social_task reel_ideas_then_scripts = true
is_two_stage_social_task _ = false

-- application/coerce-pass-note-verdict.ts; the two tests are those of its regular expressions.
pub record IssueTests : Type 0 where
  pub trim : String → String
  pub is_empty : String → Bool
  pub pass_note : String → Bool
  pub reject_phrase : String → Bool

unfoldable pub is_pass_only_issue : IssueTests → String → Bool
is_pass_only_issue tests text =
    let trimmed = tests.trim text in
    if tests.is_empty trimmed
    then false
    else (if tests.reject_phrase trimmed then false else tests.pass_note trimmed)

abbrev pub passed_verdict : VerifierVerdict
passed_verdict = record { ok = true; context_issues = []; language_issues = [] }

pub coerce_issues : IssueTests → VerifierVerdict → List String → VerifierVerdict × Bool
unfolding is_pass_only_issue
coerce_issues tests v [] = (v, false)
coerce_issues tests v (x ∷ xs) =
    if all (is_pass_only_issue tests) (x ∷ xs) then (passed_verdict, true) else (v, false)

-- The verdict, and whether it was turned.
unfoldable pub coerce_pass_note_verdict : IssueTests → VerifierVerdict → VerifierVerdict × Bool
unfolding coerce_issues
coerce_pass_note_verdict tests v =
    if v.ok then (v, false) else coerce_issues tests v (v.context_issues ++ v.language_issues)
