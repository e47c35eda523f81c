-- ===== src/Runs/Cancel/Laws.antt =====
-- What a cancellation does on each branch, with writes of other clients between its read and its
-- conditional update.
use content_chain.Prelude.{
  ℕ, ◌≡◌, refl, ◌∙◌, Bool, true, false, ◌||◌, ◌∷◌, some, arith, if◌then◌else◌, ◌==◌, ==_iff,
}
use content_chain.Shared.Enums.{RunStatus, completed, failed, cancelled, has_status}
use content_chain.Shared.Exception.{returned}
use content_chain.Shared.Actor.{AuthUserContext}
use content_chain.Runs.Status.{cancelable_run_statuses}
use content_chain.Runs.Record.{RunRow, RunSnapshot, Table}
use content_chain.Runs.Prisma.{PrismaClient, DistinctIds}
use content_chain.Runs.Rows.{row}
use content_chain.Runs.Repository.{get_by_id, attempt_cancel, set_cancel_requested, set_cancelled}
use content_chain.Runs.Repository.Laws.{
  attempt_cancel_wins, row-attempt_cancel, row-set_cancel_requested,
}
use content_chain.Runs.Abort.{request_cancel}
use content_chain.Runs.World.{
  World, publishes, completes, run_status, run_cancelled, run_log, info, RunLogEntry,
}
use content_chain.Runs.Lifecycle.{append_log, publish_cancelled}
use content_chain.Runs.Cancel.{
  read, GetRunGuestAccess, get_run, cancel_won, cancel_lost, cancel_live, cancel_by_status,
  cancel_run, started_by_actor, is_admin_cancelling_guest,
}

abbrev pub may_cancel : RunSnapshot → AuthUserContext → Bool
may_cancel s actor =
    started_by_actor s.started_by actor || is_admin_cancelling_guest s.started_by actor

abbrev pub cancel_log : ℕ → ℕ → AuthUserContext → RunSnapshot → RunLogEntry
cancel_log now id actor s = record {
  run_id = id;
  conversation_id = some s.conversation_id;
  at = now;
  level = info;
  message =
      if is_admin_cancelling_guest s.started_by actor
      then "Run cancelled by admin"
      else "Run cancelled by user";
  step = some "CancelRunUseCase";
}

module _ (db : PrismaClient) (id : ℕ) (actor : AuthUserContext) where
  get_run-world : (a : GetRunGuestAccess) (w : World) → (get_run db id actor a w).1 ≡ w
  unfolding get_run
  get_run-world a w = ground arith

  cancel_lost-world : (w : World) → (cancel_lost db id actor w).1 ≡ w
  unfolding cancel_lost
  cancel_lost-world w = ground (arith, get_run-world read w)

  module _ (others meanwhile : Table → Table) (now : ℕ) (s : RunSnapshot) (w : World) where
    by_status_live :
        (q : RunStatus)
        → has_status cancelable_run_statuses q ≡ true
        → cancel_by_status db others meanwhile now id actor s q w
          ≡ cancel_live db others meanwhile now id actor s w
    unfolding cancel_by_status
    by_status_live cancelled h = cc
    by_status_live completed h = cc
    by_status_live failed h = cc
    by_status_live _ h = refl

    cancel_run_allowed :
        get_by_id db id w.table ≡ returned (some s)
        → may_cancel s actor ≡ true
        → has_status cancelable_run_statuses s.status ≡ true
        → cancel_run db others meanwhile now id actor w
          ≡ cancel_live db others meanwhile now id actor s w
    unfolding cancel_run
    cancel_run_allowed e m h = rw (e, m) (by_status_live s.status h)

    -- The table at the second conditional update.
    abbrev pub at_update : Table
    at_update = meanwhile (set_cancel_requested db id (others w.table))

    module _ (r : RunRow) (distinct : DistinctIds at_update)
        (stored : row id at_update ≡ some r) where
      wins : (attempt_cancel db id now at_update).0 ≡ has_status cancelable_run_statuses r.status
      wins = attempt_cancel_wins db id now at_update r distinct stored

      row-cancelled :
          (j : ℕ)
          → row j (attempt_cancel db id now at_update).1 ≡ (
              if j == id
              then some
                  (if has_status cancelable_run_statuses r.status then set_cancelled now r else r)
              else row j at_update)
      row-cancelled j = row-attempt_cancel db id now at_update r j stored

      -- A cancellation by a caller who may cancel, of a run that was live when it was read and
      -- still is, under a key of its own, at the second conditional update: the row is cancelled and
      -- dated, no other row changes beyond the request for cancellation and what the others wrote
      -- before that update, the run's controller is aborted, and the log entry and the four calls
      -- on the hub follow.
      pub cancel_run_wins :
          get_by_id db id w.table ≡ returned (some s)
          → may_cancel s actor ≡ true
          → has_status cancelable_run_statuses s.status ≡ true
          → has_status cancelable_run_statuses r.status ≡ true
          → let w' = (cancel_run db others meanwhile now id actor w).1 in
            ((j : ℕ)
              → row j w'.table ≡ (if j == id then some (set_cancelled now r) else row j at_update))
            × (w'.registry ≡ request_cancel id w.registry)
            × (w'.logs ≡ cancel_log now id actor s ∷ w.logs)
            × (w'.hub_calls
                ≡ completes id
                  ∷ publishes (run_cancelled id)
                  ∷ publishes (run_status id cancelled)
                  ∷ publishes (run_log (cancel_log now id actor s))
                  ∷ w.hub_calls)
      unfolding cancel_live cancel_won append_log publish_cancelled
      cancel_run_wins e m h live = rw (cancel_run_allowed e m h) (
          rw (wins ∙ live)
            (rw (get_run-world read _) (λ j. rw (row-cancelled j, live) refl, refl, refl, refl)))

      -- A cancellation by a caller who may cancel, of a run that was live when it was read, but is
      -- stored, under a key of its own, with a status that cannot be cancelled at the second
      -- conditional update: that update changes no row, so that the rows are as the request for
      -- cancellation and the others left them, and nothing is aborted, logged or published. When
      -- the others left the run with such a status before the request, and wrote nothing after it,
      -- the request has changed no row either.
      pub cancel_run_loses :
          get_by_id db id w.table ≡ returned (some s)
          → may_cancel s actor ≡ true
          → has_status cancelable_run_statuses s.status ≡ true
          → has_status cancelable_run_statuses r.status ≡ false
          → let w' = (cancel_run db others meanwhile now id actor w).1 in
            ((j : ℕ) → row j w'.table ≡ row j at_update)
            × (w'.registry ≡ w.registry)
            × (w'.logs ≡ w.logs)
            × (w'.hub_calls ≡ w.hub_calls)
            × (row id (others w.table) ≡ some r
                → ((t : Table) → meanwhile t ≡ t)
                → (j : ℕ) → row j w'.table ≡ row j (others w.table))
      unfolding cancel_live
      cancel_run_loses e m h over = rw (cancel_run_allowed e m h) (
          rw (wins ∙ over) (
            rw (cancel_lost-world _) (
              λ j. unchanged j,
              refl,
              refl,
              refl,
              λ before idle j. unchanged j ∙ untouched before idle j,
            )))
        where
          unchanged : (j : ℕ) → row j (attempt_cancel db id now at_update).1 ≡ row j at_update
          unchanged j = ground (arith, row-cancelled j, ==_iff j id, stored)

          untouched :
              row id (others w.table) ≡ some r
              → ((t : Table) → meanwhile t ≡ t)
              → (j : ℕ) → row j at_update ≡ row j (others w.table)
          untouched before idle j = rw (idle (set_cancel_requested db id (others w.table))) (
              ground (
                arith,
                row-set_cancel_requested db id (others w.table) r j before,
                ==_iff j id,
                before,
              ))
