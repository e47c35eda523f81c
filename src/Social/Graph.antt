-- ===== src/Social/Graph.antt =====
-- apps/api/src/social/infrastructure/graph/nodes. What a language model answers, a new identifier,
-- and whether the database takes a write come from the services, which keep a state of their own.
pub mod Nodes
pub mod Walk
pub mod Steps
pub mod Ends
pub mod Delivers
use Prim.Native.String.{String}
use content_chain.Prelude.{
  ℕ, Bool, true, false, List, [], ◌∷◌, ◌++◌, Option, none, some, if◌then◌else◌, ◌==◌, get_or,
  filter, find, includes, length,
}
use content_chain.Shared.Exception.{Outcome, returned, thrown, rejected}
use content_chain.Shared.Llm.ParseJson.{Text}
use content_chain.Content.Types.{VerifierVerdict, next_refine_count}
use content_chain.Content.Drafts.{
  join, issue_part, joined_or, context_issues_of, language_issues_of,
}
use content_chain.Runs.World.{RunLogEntry}
use content_chain.Social.Types.{
  SocialPhase, ideas_phase, content_phase, SocialIdea, SocialContent, ReelIdea, ReelScript,
  ReelScriptSegment, SocialResults, SocialGraphState, is_reel_task_type, is_two_stage_social_task,
  IssueTests, coerce_pass_note_verdict,
}

-- Answers of the model, identifiers being optional.
pub record IdeaDraft : Type 0 where
  pub id : Option ℕ
  pub title : String
  pub angle : String
  pub hook : String
  pub cta : Option String

pub record ReelIdeaDraft : Type 0 where
  pub id : Option ℕ
  pub title : String
  pub description : String
  pub hook : String
  pub duration_seconds : ℕ
  pub cta : Option String

pub record PostDraft : Type 0 where
  pub body : Text
  pub hashtags : List String
  pub cta : Option String

pub record ScriptDraft : Type 0 where
  pub segments : List ReelScriptSegment
  pub cta : String
  pub notes : Option String

-- The ideas that a prompt shows: the selected one, or those that the selection leaves.
pub data Shown (A : Type 0) : Type 0 where
  only : A → Shown A
  listed : List A → Shown A

pub record SocialServices (C W : Type 0) : Type 0 where
  -- The company's context with the brief's audience in effect.
  pub load_company : Option String → W → Outcome C × W
  pub tests : IssueTests
  pub new_id : W → ℕ × W
  pub ideation : SocialGraphState C → W → Outcome (List IdeaDraft) × W
  pub reel_ideation : SocialGraphState C → W → Outcome (List ReelIdeaDraft) × W
  pub post_writer : SocialGraphState C → Shown SocialIdea → W → Outcome PostDraft × W
  pub script_writer : SocialGraphState C → Shown ReelIdea → W → Outcome ScriptDraft × W
  pub verifier : SocialGraphState C → W → Outcome VerifierVerdict × W
  pub refine_ideas : SocialGraphState C → W → Outcome (List IdeaDraft) × W
  pub refine_reel_ideas : SocialGraphState C → W → Outcome (List ReelIdeaDraft) × W
  pub refine_post : SocialGraphState C → W → Outcome PostDraft × W
  pub refine_script : SocialGraphState C → W → Outcome ScriptDraft × W
  -- `appendLog` with the entry of a verdict, and whether it was turned.
  pub append_log : SocialGraphState C → VerifierVerdict → Bool → W → Outcome (Unit {0}) × W
  -- The entries that the calls above have given to `lifecycle.appendLog` since the execution of the
  -- run began, the newest first.
  pub logged : W → List RunLogEntry
  -- A write to the store.
  pub write : W → Outcome (Unit {0}) × W

-- `old[index]?.id`
abbrev pub first_id : List ℕ → Option ℕ
first_id [] = none
first_id (x ∷ xs) = some x

abbrev pub rest_ids : List ℕ → List ℕ
rest_ids [] = []
rest_ids (x ∷ xs) = xs

abbrev pub idea_ids : List SocialIdea → List ℕ
idea_ids [] = []
idea_ids (i ∷ is) = i.id ∷ idea_ids is

abbrev pub reel_idea_ids : List ReelIdea → List ℕ
reel_idea_ids [] = []
reel_idea_ids (i ∷ is) = i.id ∷ reel_idea_ids is

-- `filterBySelection`, over the identifier of an item.
abbrev pub filter_by_selection : {A : Type 0} → (A → ℕ) → List A → Option (List ℕ) → List A
filter_by_selection id source (some (x ∷ xs)) = filter (λ a. includes (x ∷ xs) (id a)) source
filter_by_selection id source _ = source

-- `source.find((item) => item.id === ideaId)`, of the one selected idea.
selected_idea : {A : Type 0} → (A → ℕ) → List A → Option (List ℕ) → Outcome A
selected_idea id source (some (x ∷ [])) = elim (find (λ a. id a == x) source) [
  | some a ↦ returned a
  | none ↦ rejected
]
selected_idea id source _ = rejected

unfoldable pub shown : {A : Type 0} → (A → ℕ) → Bool → List A → Option (List ℕ) → Outcome (Shown A)
unfolding selected_idea
shown id two_stage source selection =
    if two_stage
    then (elim (selected_idea id source selection) [
      | returned a ↦ returned (only a)
      | thrown e ↦ thrown e
    ])
    else returned (listed (filter_by_selection id source selection))

abbrev pub source_of : {A : Type 0} → (A → ℕ) → Shown A → Option ℕ
source_of id (only a) = some (id a)
source_of id (listed _) = none

abbrev pub post_of : PostDraft → Option ℕ → SocialContent
post_of d source = record {
  body = d.body;
  hashtags = d.hashtags;
  cta = d.cta;
  character_count = length d.body;
  source_idea_id = source;
}

abbrev pub script_of : ScriptDraft → Option ℕ → ReelScript
script_of d source = record {
  segments = d.segments;
  cta = d.cta;
  notes = d.notes;
  source_idea_id = source;
}

abbrev pub post_source : Option SocialContent → Option ℕ
post_source none = none
post_source (some c) = c.source_idea_id

abbrev pub script_source : Option ReelScript → Option ℕ
script_source none = none
script_source (some c) = c.source_idea_id

-- `sourceIdeaIdFromState`, and the source that is stored: that of the state in a task of two stages.
abbrev pub source_idea_id_from_state : Option (List ℕ) → Option ℕ
source_idea_id_from_state (some (x ∷ xs)) = some x
source_idea_id_from_state _ = none

abbrev pub or_source : Option ℕ → Option ℕ → Option ℕ
or_source (some id) old = some id
or_source none old = old

abbrev pub stored_source : {C : Type 0} → SocialGraphState C → Option ℕ → Option ℕ
stored_source s old =
    if is_two_stage_social_task s.task_type
    then or_source (source_idea_id_from_state s.selected_idea_ids) old
    else old

module _ {C W : Type 0} (services : SocialServices C W) where
  -- The store and the services' state.
  abbrev pub Shelf : Type 0
  Shelf = SocialResults × W

  abbrev pub SocialAnswer : Type 0
  SocialAnswer = Outcome (SocialGraphState C) × Shelf

  -- An answer that becomes part of the state; the store stays.
  unfoldable pub with_answer :
      {A : Type 0} → (A → SocialGraphState C) → SocialResults → Outcome A × W → SocialAnswer
  with_answer f store (returned a, w) = (returned (f a), (store, w))
  with_answer f store (thrown e, w) = (thrown e, (store, w))

  -- The same, with one more refinement counted.
  unfoldable pub with_count :
      {A : Type 0}
      → (A → ℕ → SocialGraphState C)
      → SocialResults
      → Outcome ℕ
      → Outcome A × W
      → SocialAnswer
  with_count f store count (thrown e, w) = (thrown e, (store, w))
  with_count f store (thrown e) (returned a, w) = (thrown e, (store, w))
  with_count f store (returned n) (returned a, w) = (returned (f a n), (store, w))

  number_ideas : List IdeaDraft → List ℕ → W → List SocialIdea × W
  number_ideas [] old w = ([], w)
  number_ideas (d ∷ ds) old w =
      let (fresh, w1) = services.new_id w in
      let (rest, w2) = number_ideas ds (rest_ids old) w1 in
      (
        record {
          id = get_or d.id (get_or (first_id old) fresh);
          title = d.title;
          angle = d.angle;
          hook = d.hook;
          cta = d.cta;
        }
            ∷ rest,
        w2,
      )

  number_reel_ideas : List ReelIdeaDraft → List ℕ → W → List ReelIdea × W
  number_reel_ideas [] old w = ([], w)
  number_reel_ideas (d ∷ ds) old w =
      let (fresh, w1) = services.new_id w in
      let (rest, w2) = number_reel_ideas ds (rest_ids old) w1 in
      (
        record {
          id = get_or d.id (get_or (first_id old) fresh);
          title = d.title;
          description = d.description;
          hook = d.hook;
          duration_seconds = d.duration_seconds;
          cta = d.cta;
        }
            ∷ rest,
        w2,
      )

  numbered_ideas : List ℕ → Outcome (List IdeaDraft) × W → Outcome (List SocialIdea) × W
  unfolding number_ideas
  numbered_ideas old (thrown e, w) = (thrown e, w)
  numbered_ideas old (returned ds, w) =
      let (numbered, w') = number_ideas ds old w in (returned numbered, w')

  numbered_reel_ideas : List ℕ → Outcome (List ReelIdeaDraft) × W → Outcome (List ReelIdea) × W
  unfolding number_reel_ideas
  numbered_reel_ideas old (thrown e, w) = (thrown e, w)
  numbered_reel_ideas old (returned ds, w) =
      let (numbered, w') = number_reel_ideas ds old w in (returned numbered, w')

  unfoldable pub load_context_node : SocialGraphState C → Shelf → SocialAnswer
  unfolding with_answer
  load_context_node s (store, w) =
      with_answer (λ company. record s { company = some company }) store
        (services.load_company s.brief.audience w)

  unfoldable pub normalize_brief_node : SocialGraphState C → SocialGraphState C
  normalize_brief_node s = record s {
    brief = record s.brief {
      topic = services.tests.trim s.brief.topic;
      idea_count = some (get_or s.brief.idea_count 5);
    };
  }

  unfoldable pub ideation_node : SocialGraphState C → Shelf → SocialAnswer
  unfolding with_answer numbered_ideas numbered_reel_ideas
  ideation_node s (store, w) =
      if is_reel_task_type s.task_type
      then with_answer (λ drawn. record s { reel_ideas = drawn }) store
          (numbered_reel_ideas [] (services.reel_ideation s w))
      else with_answer (λ drawn. record s { ideas = drawn }) store
          (numbered_ideas [] (services.ideation s w))

  unfoldable pub post_written :
      SocialGraphState C → Outcome (Shown SocialIdea) → Shelf → SocialAnswer
  unfolding with_answer
  post_written s (thrown e) held = (thrown e, held)
  post_written s (returned given) (store, w) =
      with_answer (λ d. record s { content = some (post_of d (source_of (λ i. i.id) given)) }) store
        (services.post_writer s given w)

  unfoldable pub script_written :
      SocialGraphState C → Outcome (Shown ReelIdea) → Shelf → SocialAnswer
  unfolding with_answer
  script_written s (thrown e) held = (thrown e, held)
  script_written s (returned given) (store, w) =
      with_answer (λ d. record s { reel_script = some (script_of d (source_of (λ i. i.id) given)) })
        store (services.script_writer s given w)

  unfoldable pub content_writer_node : SocialGraphState C → Shelf → SocialAnswer
  unfolding post_written script_written shown
  content_writer_node s held =
      let two_stage = is_two_stage_social_task s.task_type in
      if is_reel_task_type s.task_type
      then script_written s (shown (λ i. i.id) two_stage s.reel_ideas s.selected_idea_ids) held
      else post_written s (shown (λ i. i.id) two_stage s.ideas s.selected_idea_ids) held
