-- ===== src/Runs/StartRun.antt =====
-- apps/api/src/runs/application/start-run.use-case.ts, from the parsed command on. The new
-- identifiers, the state of the company context and the clock are arguments.
pub mod Laws
use content_chain.Prelude.{
  ℕ, ◌≡◌, Bool, true, false, List, [], ◌∷◌, Option, none, some, if◌then◌else◌, get_or,
}
use content_chain.Shared.Enums.{
  RunStatus, queued, RunTaskType, page_copy, page_outline_then_copy, RunPlatform, web, ContentKind,
  ContentLanguage,
}
use content_chain.Shared.Exception.{
  DomainException, Outcome, returned, thrown, throw, require, context_incomplete,
}
use content_chain.Shared.Actor.{AuthUserContext, Env}
use content_chain.Guest.Quota.{RedisClient}
use content_chain.Guest.Policy.{GuestRunAdmit, releasable, admit_start, release}
use content_chain.Runs.Record.{RunRow, RunSnapshot, Table, Brief}
use content_chain.Runs.Prisma.{PrismaClient}
use content_chain.Runs.Repository.{create_run, get_by_id}
use content_chain.Runs.World.{World, queued_notice, M, ◌>>=◌, ◌>>◌, return, lift, reading, notify}

-- The parsed command: `discriminatedUnion('taskType', ...)`.
pub data StartRunCommand : Type 0 where
  social_start :
      RunTaskType → RunPlatform → ContentLanguage → Brief → Option (List ℕ) → StartRunCommand
  page_start : RunTaskType → ContentKind → ContentLanguage → Brief → StartRunCommand

abbrev pub task_type_of : StartRunCommand → RunTaskType
task_type_of (social_start t p l b ids) = t
task_type_of (page_start t k l b) = t

pub record StartRunOutput : Type 0 where
  pub id : ℕ
  pub conversation_id : ℕ
  pub status : RunStatus

abbrev pub actor_id : Option AuthUserContext → Option ℕ
actor_id none = none
actor_id (some a) = some a.id

-- The record that is created; `base` holds what both kinds of command share.
abbrev base : ℕ → ℕ → ℕ → Option ℕ → RunTaskType → ContentLanguage → Brief → RunRow
base id conversation now by type language brief = record {
  id = id;
  conversation_id = conversation;
  task_type = type;
  platform = web;
  content_kind = none;
  language = language;
  pipeline_phase = none;
  ideas_refine_count = 0;
  content_refine_count = 0;
  outline_refine_count = 0;
  copy_refine_count = 0;
  status = queued;
  brief = brief;
  selected_idea_ids = none;
  started_by_user_id = by;
  recovery_attempts = 0;
  cancel_requested = false;
  created_at = now;
  user_rating = none;
  output_edited = false;
  review_finalized_at = none;
  pipeline_finished_at = none;
  cancelled_at = none;
}

unfoldable pub new_run : ℕ → ℕ → ℕ → Option ℕ → StartRunCommand → RunRow
new_run id conversation now by (social_start type platform language brief ids) =
    record (base id conversation now by type language brief) {
      platform = platform;
      selected_idea_ids = ids;
    }
new_run id conversation now by (page_start type kind language brief) =
    record (base id conversation now by type language brief) { content_kind = some kind }

-- `fresh?.status ?? 'queued'`
abbrev fresh_status : Option RunSnapshot → RunStatus
fresh_status none = queued
fresh_status (some s) = s.status

-- `now` is the clock when the run is admitted, and `later` when an admission is given back.
module _ (db : PrismaClient) (redis : RedisClient) (env : Env) (now later : ℕ) where
  admit : Option AuthUserContext → RunTaskType → M (Option GuestRunAdmit)
  admit none type = return none
  admit (some actor) type = admit_start db redis env now actor type

  -- `catch (error) { if (guestAdmit !== null) await guestAdmit.release(); throw error; }`
  rethrow : DomainException → Option GuestRunAdmit → M (Unit {0})
  rethrow e none = lift (thrown e)
  rethrow e (some releasable) = do release redis later; lift (thrown e)

  created : Option GuestRunAdmit → Outcome (Unit {0}) → M (Unit {0})
  unfolding rethrow
  created a (returned _) = return tt
  created a (thrown e) = rethrow e a

  store_run : RunRow → Option GuestRunAdmit → M (Unit {0})
  unfolding created
  store_run run a w = let (o, t) = create_run db run w.table in created a o (record w { table = t })

  unfoldable pub start_run :
      ℕ → ℕ → Bool → StartRunCommand → Option AuthUserContext → M StartRunOutput
  unfolding admit store_run
  start_run id conversation complete command actor = do
    lift (require complete context_incomplete 409)
    guest_admit ← admit actor (task_type_of command)
    store_run (new_run id conversation now (actor_id actor) command) guest_admit
    notify queued_notice
    fresh ← reading (get_by_id db id)
    return (record { id = id; conversation_id = conversation; status = fresh_status fresh })
