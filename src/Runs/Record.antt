-- ===== src/Runs/Record.antt =====
-- apps/api/src/runs/domain/run.types.ts and run.port.ts, with the row of the table `Run` that
-- infrastructure/persistence/prisma-run.adapter.ts stores. An identifier is an opaque token that is
-- only compared, so a number stands for it; a date is its number of milliseconds.
use Prim.Native.String.{String}
use content_chain.Prelude.{
  ℕ, Bool, true, false, Option, none, some, List, [], ◌∷◌, not, ◌&&◌, is_some, if◌then◌else◌,
}
use content_chain.Shared.Enums.{
  UserRole, RunStatus, RunTaskType, RunPlatform, web, ContentKind, ContentLanguage,
  is_social_task_type,
}
use content_chain.Shared.Exception.{Outcome, returned, rejected, ◌>>=◌}

pub record Brief : Type 0 where
  pub topic : String
  pub audience : Option String
  pub goal : Option String
  pub idea_count : Option ℕ
  pub angle : Option String
  pub target_length : Option ℕ

pub data PipelinePhase : Type 0 where
  ideas content outline copy : PipelinePhase

pub record RunRow : Type 0 where
  pub id : ℕ
  pub conversation_id : ℕ
  pub task_type : RunTaskType
  pub platform : RunPlatform
  pub content_kind : Option ContentKind
  pub language : ContentLanguage
  pub pipeline_phase : Option PipelinePhase
  pub ideas_refine_count : ℕ
  pub content_refine_count : ℕ
  pub outline_refine_count : ℕ
  pub copy_refine_count : ℕ
  pub status : RunStatus
  pub brief : Brief
  pub selected_idea_ids : Option (List ℕ)
  pub started_by_user_id : Option ℕ
  pub recovery_attempts : ℕ
  pub cancel_requested : Bool
  pub created_at : ℕ
  pub user_rating : Option ℕ
  pub output_edited : Bool
  pub review_finalized_at : Option ℕ
  pub pipeline_finished_at : Option ℕ
  pub cancelled_at : Option ℕ

-- The rows in no particular order; a query that wants an order says so.
abbrev pub Table : Type 0
Table = List RunRow

pub record RunStartedBy : Type 0 where
  pub id : ℕ
  pub email : String
  pub role : UserRole

pub record RunSnapshot : Type 0 where
  pub run : RunRow
  pub open run use *
  pub started_by : Option RunStartedBy

abbrev pub is_social_platform : RunPlatform → Bool
is_social_platform web = false
is_social_platform _ = true

content_snapshot : RunRow → Option RunStartedBy → Option ContentKind → Outcome RunSnapshot
content_snapshot r by none = rejected
content_snapshot r by (some k) = returned (record { run = r; started_by = by })

-- `toSnapshot`, on a row whose strings are members of their unions.
unfoldable pub to_snapshot : RunRow → Option RunStartedBy → Outcome RunSnapshot
unfolding content_snapshot
to_snapshot r by =
    if is_social_task_type r.task_type
    then (if is_social_platform r.platform
        then returned (record { run = record r { content_kind = none }; started_by = by })
        else rejected)
    else (if is_social_platform r.platform then rejected else content_snapshot r by r.content_kind)

-- The rows that `toSnapshot` does not refuse.
abbrev pub is_readable : RunRow → Bool
is_readable r =
    if is_social_task_type r.task_type
    then is_social_platform r.platform
    else not (is_social_platform r.platform) && is_some r.content_kind

-- `rows.map((row) => this.toSnapshot({ ...row, startedBy: null }))`
unfoldable pub to_snapshots : List RunRow → Outcome (List RunSnapshot)
to_snapshots [] = returned []
to_snapshots (r ∷ rs) = do s ← to_snapshot r none; ss ← to_snapshots rs; returned (s ∷ ss)
