-- ===== src/Content/Graph.antt =====
-- apps/api/src/content/infrastructure/graph/nodes. What a language model answers, a new identifier,
-- and whether the database takes a write come from the services, which keep a state of their own.
pub mod Walk
pub mod Laws
pub mod Ends
pub mod Stores
pub mod Loop
pub mod Delivers
use Prim.Native.String.{String}
use content_chain.Prelude.{ℕ, List, [], ◌∷◌, Option, none, some, if◌then◌else◌}
use content_chain.Shared.Exception.{Outcome, returned, thrown, rejected}
use content_chain.Runs.World.{RunLogEntry}
use content_chain.Content.Types.{
  PageOutlineSection, PageOutline, PageDocument, VerifierVerdict, ContentPipelineState,
  ContentResults, ContentGraphState, next_refine_count,
}
use content_chain.Content.Drafts.{
  DraftSection, DraftOutline, join, issue_part, joined_or, context_issues_of, language_issues_of,
  head_of, tail_of, id_or, role_or, old_sections, old_id,
}

pub record Services (C W : Type 0) : Type 0 where
  -- The company's context with the brief's audience in effect.
  pub load_company : Option String → W → Outcome C × W
  -- `String.prototype.trim`.
  pub trim : String → String
  pub new_id : W → ℕ × W
  pub outline_agent : ContentGraphState C → W → Outcome DraftOutline × W
  pub page_writer : ContentGraphState C → W → Outcome PageDocument × W
  pub verifier : ContentGraphState C → W → Outcome VerifierVerdict × W
  pub refine_outline_agent : ContentGraphState C → W → Outcome DraftOutline × W
  pub refine_document_agent : ContentGraphState C → W → Outcome PageDocument × W
  -- `appendLog` with the entry on a draft that does not pass.
  pub append_log : ContentGraphState C → VerifierVerdict → W → Outcome (Unit {0}) × W
  -- The entries that the calls above have given to `lifecycle.appendLog` since the execution of the
  -- run began, the newest first.
  pub logged : W → List RunLogEntry
  -- A write to the store.
  pub write : W → Outcome (Unit {0}) × W

module _ {C W : Type 0} (services : Services C W) where
  -- The store and the services' state.
  abbrev pub Held : Type 0
  Held = ContentResults × W

  -- The sections of a draft; a section without an identifier takes that of the old one at its place,
  -- or else a new one.
  number_sections : List DraftSection → List PageOutlineSection → W → List PageOutlineSection × W
  number_sections [] old w = ([], w)
  number_sections (d ∷ ds) old w =
      let (fresh, w1) = services.new_id w in
      let (rest, w2) = number_sections ds (tail_of old) w1 in
      (
        record {
          id = id_or d.id (head_of old) fresh;
          heading = d.heading;
          summary = d.summary;
          role = role_or d.role (head_of old);
        }
            ∷ rest,
        w2,
      )

  load_context : ContentGraphState C → Held → Outcome (ContentGraphState C) × Held
  load_context s (store, w) =
      let (o, w') = services.load_company s.brief.audience w in
      (
        elim o [
          | returned company ↦ returned (record s { company = some company })
          | thrown e ↦ thrown e
        ],
        (store, w'),
      )

  normalize_brief : ContentGraphState C → ContentGraphState C
  normalize_brief s = record s {
    brief = record s.brief {
      topic = services.trim s.brief.topic;
      angle = elim s.brief.angle [ none ↦ none | some a ↦ some (services.trim a) ];
    };
  }

  -- An answer of a model that becomes part of the state.
  numbered : ContentGraphState C → Outcome DraftOutline × W → Outcome PageOutline × W
  unfolding number_sections
  numbered s (thrown e, w) = (thrown e, w)
  numbered s (returned d, w) =
      let (fresh, w1) = services.new_id w in
      let (sections, w2) = number_sections d.sections (old_sections s.outline) w1 in
      (returned (record { id = old_id s.outline fresh; title = d.title; sections = sections }), w2)

  -- The first draft takes nothing from an outline before it.
  outline_agent : ContentGraphState C → Held → Outcome (ContentGraphState C) × Held
  unfolding numbered
  outline_agent s (store, w) =
      let (o, w') = numbered (record s { outline = none }) (services.outline_agent s w) in
      (
        elim o [
          | returned drawn ↦ returned (record s { outline = some drawn })
          | thrown e ↦ thrown e
        ],
        (store, w'),
      )

  page_writer : ContentGraphState C → Held → Outcome (ContentGraphState C) × Held
  page_writer s (store, w) =
      let (o, w') = services.page_writer s w in
      (
        elim o [
          | returned document ↦ returned (record s { document = some document })
          | thrown e ↦ thrown e
        ],
        (store, w'),
      )

  -- `store.savePipelineState`, on the columns that the results hold, with the phase and the counts of the state.
  abbrev pipeline_of : ContentGraphState C → ContentPipelineState
  pipeline_of s = record {
    phase = some s.phase;
    outline_refine_count = s.outline_refine_count;
    copy_refine_count = s.copy_refine_count;
  }

  -- A write, and then a state that goes on.
  saved :
      (ContentResults → ContentResults)
      → ContentGraphState C
      → Outcome (Unit {0}) × W
      → ContentResults
      → Outcome (ContentGraphState C) × Held
  saved f s (returned _, w) store = (returned s, (f store, w))
  saved f s (thrown e, w) store = (thrown e, (store, w))

  judged :
      ContentGraphState C
      → ContentResults
      → Outcome VerifierVerdict × W
      → Outcome (ContentGraphState C) × Held
  unfolding saved
  judged s store (thrown e, w) = (thrown e, (store, w))
  judged s store (returned v, w) =
      let s' : ContentGraphState C = record s { verdict = some v } in
      if v.ok
      then (returned s', (store, w))
      else saved (λ r. r) s' (services.append_log s v w) store

  unfoldable pub verify : ContentGraphState C → Held → Outcome (ContentGraphState C) × Held
  unfolding judged
  verify s (store, w) = judged s store (services.verifier s w)

  unfoldable pub save_pipeline_state :
      ContentGraphState C → Held → Outcome (ContentGraphState C) × Held
  unfolding saved
  save_pipeline_state s (store, w) =
      saved (λ r. record r { pipeline = pipeline_of s }) s (services.write w) store

  -- A write of a result, after which the state of the pipeline is saved.
  written :
      (ContentResults → ContentResults)
      → ContentGraphState C
      → Outcome (Unit {0}) × W
      → ContentResults
      → Outcome (ContentGraphState C) × Held
  unfolding save_pipeline_state
  written f s (returned _, w) store = save_pipeline_state s (f store, w)
  written f s (thrown e, w) store = (thrown e, (store, w))

  refined_outline :
      ContentGraphState C
      → ContentResults
      → Outcome PageOutline × W
      → Outcome ℕ
      → Outcome (ContentGraphState C) × Held
  refined_outline s store (thrown e, w) count = (thrown e, (store, w))
  refined_outline s store (returned drawn, w) (thrown e) = (thrown e, (store, w))
  refined_outline s store (returned drawn, w) (returned n) =
      save_pipeline_state (record s { outline = some drawn; outline_refine_count = n }) (store, w)

  unfoldable pub refine_outline_node :
      ContentGraphState C → Held → Outcome (ContentGraphState C) × Held
  unfolding refined_outline numbered
  refine_outline_node s (store, w) =
      refined_outline s store (numbered s (services.refine_outline_agent s w))
        (next_refine_count s.outline_refine_count)

  refined_document :
      ContentGraphState C
      → ContentResults
      → Outcome PageDocument × W
      → Outcome ℕ
      → Outcome (ContentGraphState C) × Held
  refined_document s store (thrown e, w) count = (thrown e, (store, w))
  refined_document s store (returned document, w) (thrown e) = (thrown e, (store, w))
  refined_document s store (returned document, w) (returned n) =
      save_pipeline_state (record s { document = some document; copy_refine_count = n }) (store, w)

  unfoldable pub refine_document_node :
      ContentGraphState C → Held → Outcome (ContentGraphState C) × Held
  unfolding refined_document
  refine_document_node s (store, w) =
      refined_document s store (services.refine_document_agent s w)
        (next_refine_count s.copy_refine_count)

  pub persist_drawn :
      Option PageOutline → ContentGraphState C → Held → Outcome (ContentGraphState C) × Held
  unfolding written
  persist_drawn none s held = (rejected, held)
  persist_drawn (some o) s (store, w) =
      written (λ r. record r { outline = some o }) s (services.write w) store

  unfoldable pub persist_outline_node :
      ContentGraphState C → Held → Outcome (ContentGraphState C) × Held
  unfolding persist_drawn
  persist_outline_node s = persist_drawn s.outline s

  -- A document is stored with the verdict on it.
  pub persist_verified :
      Option PageDocument
      → Option VerifierVerdict
      → ContentGraphState C
      → Held
      → Outcome (ContentGraphState C) × Held
  unfolding written
  persist_verified (some d) (some v) s (store, w) =
      written (λ r. record r { document = some (d, v) }) s (services.write w) store
  persist_verified _ _ s (store, w) = (rejected, (store, w))

  unfoldable pub persist_document_node :
      ContentGraphState C → Held → Outcome (ContentGraphState C) × Held
  unfolding persist_verified
  persist_document_node s = persist_verified s.document s.verdict s

  -- The state of a failed run, once the state of the pipeline is saved.
  as_failed :
      ContentGraphState C
      → Outcome (ContentGraphState C) × Held
      → Outcome (ContentGraphState C) × Held
  unfolding join
  as_failed s (thrown e, held) = (thrown e, held)
  as_failed s (returned _, held) = (
    returned (record s {
      failed_code = some "VERIFIER_FAILED";
      failed_message = some (
          joined_or (
            issue_part "contextIssues: " (context_issues_of s.verdict)
              (issue_part "languageIssues: " (language_issues_of s.verdict) [])));
    }),
    held,
  )

  unfoldable pub fail_run_node : ContentGraphState C → Held → Outcome (ContentGraphState C) × Held
  unfolding as_failed
  fail_run_node s held = as_failed s (save_pipeline_state s held)
