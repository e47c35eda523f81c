-- ===== src/Runs/Cancel.antt =====
-- apps/api/src/runs/application/cancel-run.use-case.ts, and of get-run.use-case.ts what decides who
-- may read a run; the snapshot stands for the output that is composed from it.
pub mod Laws
use Prim.Native.String.{String}
use content_chain.Prelude.{
  ℕ, ◌≡◌, Bool, true, false, not, ◌&&◌, ◌||◌, Option, none, some, if◌then◌else◌, ◌==◌,
}
use content_chain.Shared.Enums.{
  admin, guest, same_role, RunStatus, completed, failed, cancelled, same_status,
}
use content_chain.Shared.Exception.{
  Outcome, returned, throw, require, run_not_found, forbidden, run_not_cancelable,
}
use content_chain.Shared.Actor.{AuthUserContext}
use content_chain.Guest.Policy.{assert_guest_owns_run, assert_guest_can_read_run}
use content_chain.Runs.Record.{RunRow, Table, RunStartedBy, RunSnapshot}
use content_chain.Runs.Prisma.{PrismaClient}
use content_chain.Runs.Repository.{get_by_id, set_cancel_requested, attempt_cancel}
use content_chain.Runs.Abort.{request_cancel}
use content_chain.Runs.World.{
  World, info, M, ◌>>=◌, ◌>>◌, return, lift, reading, modify_table, try_update,
}
use content_chain.Runs.Lifecycle.{append_log, publish_cancelled}

abbrev pub found_or_404 : Option RunSnapshot → Outcome RunSnapshot
found_or_404 none = throw run_not_found 404
found_or_404 (some s) = returned s

pub data GetRunGuestAccess : Type 0 where
  read own : GetRunGuestAccess

abbrev guest_check : GetRunGuestAccess → AuthUserContext → RunSnapshot → Outcome (Unit {0})
guest_check own actor s = assert_guest_owns_run actor s.started_by_user_id
guest_check read actor s = assert_guest_can_read_run actor s.started_by_user_id s.status

-- `startedBy?.id === actor.id`
abbrev pub started_by_actor : Option RunStartedBy → AuthUserContext → Bool
started_by_actor none actor = false
started_by_actor (some u) actor = u.id == actor.id

abbrev pub started_by_guest : Option RunStartedBy → Bool
started_by_guest none = false
started_by_guest (some u) = same_role u.role guest

abbrev pub is_admin_cancelling_guest : Option RunStartedBy → AuthUserContext → Bool
is_admin_cancelling_guest by actor = same_role actor.role admin && started_by_guest by

-- `latest?.status === 'cancelled'`
abbrev pub is_cancelled : Option RunSnapshot → Bool
is_cancelled none = false
is_cancelled (some s) = same_status s.status cancelled

abbrev abort_run : ℕ → M (Unit {0})
abort_run id w = (returned tt, record w { registry = request_cancel id w.registry })

module _ (db : PrismaClient) where
  unfoldable pub get_run : ℕ → AuthUserContext → GetRunGuestAccess → M RunSnapshot
  get_run id actor access = do
    found ← reading (get_by_id db id)
    run ← lift (found_or_404 found)
    lift (guest_check access actor run)
    return run

  -- After the compare-and-set that cancelled the run.
  cancel_won : ℕ → ℕ → AuthUserContext → RunSnapshot → M RunSnapshot
  cancel_won now id actor s = do
    abort_run id
    append_log (record {
      run_id = id;
      conversation_id = some s.conversation_id;
      at = now;
      level = info;
      message =
          if is_admin_cancelling_guest s.started_by actor
          then "Run cancelled by admin"
          else "Run cancelled by user";
      step = some "CancelRunUseCase";
    })
    publish_cancelled id
    get_run id actor read

  -- After the compare-and-set that found no run to cancel.
  cancel_lost : ℕ → AuthUserContext → M RunSnapshot
  cancel_lost id actor = do
    latest ← reading (get_by_id db id)
    if is_cancelled latest then get_run id actor read else lift (throw run_not_cancelable 409)

  cancel_live :
      (Table → Table) → (Table → Table) → ℕ → ℕ → AuthUserContext → RunSnapshot → M RunSnapshot
  unfolding cancel_won cancel_lost
  cancel_live others meanwhile now id actor s = do
    modify_table others
    modify_table (set_cancel_requested db id)
    modify_table meanwhile
    won ← try_update (attempt_cancel db id now)
    if won then cancel_won now id actor s else cancel_lost id actor

  cancel_by_status :
      (Table → Table)
      → (Table → Table)
      → ℕ
      → ℕ
      → AuthUserContext
      → RunSnapshot
      → RunStatus
      → M RunSnapshot
  unfolding cancel_live
  cancel_by_status others meanwhile now id actor s cancelled = get_run id actor read
  cancel_by_status others meanwhile now id actor s completed = lift (throw run_not_cancelable 409)
  cancel_by_status others meanwhile now id actor s failed = lift (throw run_not_cancelable 409)
  cancel_by_status others meanwhile now id actor s _ = cancel_live others meanwhile now id actor s

  -- `others` is what other clients write between the read and the first conditional update, and
  -- `meanwhile` what they write between that one and the second.
  unfoldable pub cancel_run :
      (Table → Table) → (Table → Table) → ℕ → ℕ → AuthUserContext → M RunSnapshot
  unfolding cancel_by_status
  cancel_run others meanwhile now id actor = do
    found ← reading (get_by_id db id)
    s ← lift (found_or_404 found)
    lift (
        require
          (started_by_actor s.started_by actor || is_admin_cancelling_guest s.started_by actor)
          forbidden 403)
    cancel_by_status others meanwhile now id actor s s.status
