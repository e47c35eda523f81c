-- ===== src/Content/Types.antt =====
-- apps/api/src/content/domain: the drafts of a page, the verdict on them, and what is stored of a run.
use Prim.Native.String.{String}
use content_chain.Prelude.{ℕ, ◌+◌, Bool, List, Option, if◌then◌else◌, ltb}
use content_chain.Shared.Enums.{RunTaskType, ContentKind, ContentLanguage}
use content_chain.Shared.Exception.{Outcome, returned, rejected}
use content_chain.Runs.Record.{Brief}

pub data ContentPipelinePhase : Type 0 where
  outline_phase copy_phase : ContentPipelinePhase

pub data PageOutlineSectionRole : Type 0 where
  audience_world pain challenger insight proof objection cta other : PageOutlineSectionRole

pub record PageOutlineSection : Type 0 where
  pub id : ℕ
  pub heading : String
  pub summary : String
  pub role : Option PageOutlineSectionRole

pub record PageOutline : Type 0 where
  pub id : ℕ
  pub title : String
  pub sections : List PageOutlineSection

pub record PageDocument : Type 0 where
  pub title : String
  pub lead : String
  pub body : String
  pub meta_title : Option String
  pub meta_description : Option String

pub record VerifierVerdict : Type 0 where
  pub ok : Bool
  pub context_issues : List String
  pub language_issues : List String

pub record ContentPipelineState : Type 0 where
  pub phase : Option ContentPipelinePhase
  pub outline_refine_count : ℕ
  pub copy_refine_count : ℕ

-- What the result store holds of the run. `pipeline` is the three columns of the run's row that
-- `savePipelineState` updates, until the executor brings the table of the runs up to them.
pub record ContentResults : Type 0 where
  pub outline : Option PageOutline
  pub document : Option (PageDocument × VerifierVerdict)
  pub pipeline : ContentPipelineState

-- infrastructure/graph/state.ts, over the company's context. The phase of an abort signal is that of
-- the calls, and not part of the state.
pub record ContentGraphState (C : Type 0) : Type 0 where
  pub task_type : RunTaskType
  pub content_kind : ContentKind
  pub language : ContentLanguage
  pub brief : Brief
  pub phase : ContentPipelinePhase
  pub company : Option C
  pub outline : Option PageOutline
  pub document : Option PageDocument
  pub verdict : Option VerifierVerdict
  pub outline_refine_count : ℕ
  pub copy_refine_count : ℕ
  pub failed_code : Option String
  pub failed_message : Option String

abbrev pub max_refine : ℕ
max_refine = 2

unfoldable pub can_refine : ℕ → Bool
can_refine attempts = ltb attempts max_refine

-- REFINE_EXHAUSTED is a plain error.
unfoldable pub next_refine_count : ℕ → Outcome ℕ
next_refine_count attempts = if can_refine attempts then returned (attempts + 1) else rejected
