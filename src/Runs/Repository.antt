-- ===== src/Runs/Repository.antt =====
-- apps/api/src/runs/infrastructure/persistence/prisma-run.adapter.ts. A method takes the table to the
-- new table; `none` from the client is a rejected promise.
pub mod Laws
pub mod Claim
use content_chain.Prelude.{
  ℕ, ◌+◌, ◌-◌, ◌≡◌, refl, Bool, true, false, not, ◌&&◌, List, [], ◌∷◌, Option, none, some,
  if◌then◌else◌, ◌==◌, leb, is_some,
}
use content_chain.Shared.Enums.{
  RunStatus, queued, running, interrupted, completed, failed, cancelled, awaiting_hitl, same_status,
  has_status, RunTaskType, same_task_type,
}
use content_chain.Shared.Exception.{Outcome, returned, thrown, rejected, ◌>>=◌}
use content_chain.Runs.Status.{assert_transition, cancelable_run_statuses}
use content_chain.Runs.Record.{RunRow, Table, RunStartedBy, RunSnapshot, to_snapshot, to_snapshots}
use content_chain.Runs.Prisma.{PrismaClient, has_id}

-- The conditions of the `where` clauses.
abbrev pub is_queued : RunRow → Bool
is_queued r = same_status r.status queued

abbrev pub is_resumable : RunRow → Bool
is_resumable r = same_status r.status interrupted && not r.cancel_requested

abbrev pub is_interrupted_running : RunRow → Bool
is_interrupted_running r = same_status r.status running && not r.cancel_requested

abbrev pub is_cancel_leftover : RunRow → Bool
is_cancel_leftover r = r.cancel_requested && has_status (running ∷ interrupted ∷ []) r.status

abbrev pub is_cancelable : ℕ → RunRow → Bool
is_cancelable id r = has_id id r && has_status cancelable_run_statuses r.status

abbrev pub is_unfinalized : ℕ → RunRow → Bool
is_unfinalized id r = has_id id r && not (is_some r.review_finalized_at)

abbrev pub is_unfinished : ℕ → RunRow → Bool
is_unfinished id r = has_id id r && not (is_some r.pipeline_finished_at)

-- `{ not: null, lte: now - ttl }` on a nullable column, the difference moved to the other side.
abbrev pub ran_out : ℕ → ℕ → Option ℕ → Bool
ran_out now ttl none = false
ran_out now ttl (some at) = leb (at + ttl) now

abbrev pub is_expired : ℕ → ℕ → RunRow → Bool
is_expired now ttl r = not (is_some r.review_finalized_at) && ran_out now ttl r.pipeline_finished_at

abbrev pub is_user : ℕ → Option ℕ → Bool
is_user u none = false
is_user u (some v) = v == u

-- The `data` of the updates.
abbrev pub set_status : RunStatus → RunRow → RunRow
set_status s r = record r { status = s }

abbrev pub set_cancelled : ℕ → RunRow → RunRow
set_cancelled at r = record r {
  status = cancelled;
  cancelled_at = some at;
  cancel_requested = false;
}

abbrev pub set_finalized : ℕ → RunRow → RunRow
set_finalized at r = record r { review_finalized_at = some at }

abbrev pub set_requested : RunRow → RunRow
set_requested r = record r { cancel_requested = true }

abbrev pub set_finished : ℕ → RunRow → RunRow
set_finished at r = record r { pipeline_finished_at = some at }

abbrev pub set_rating : Option ℕ → RunRow → RunRow
set_rating rating r = record r { user_rating = rating }

abbrev pub set_edited : RunRow → RunRow
set_edited r = record r { output_edited = true }

abbrev pub set_selected : List ℕ → RunRow → RunRow
set_selected ids r = record r { selected_idea_ids = some ids }

abbrev pub set_attempts : ℕ → RunRow → RunRow
set_attempts n r = record r { recovery_attempts = n }

or_reject : Option Table → Outcome (Unit {0}) × Table → Outcome (Unit {0}) × Table
or_reject none (o, t) = (rejected, t)
or_reject (some t') (o, t) = (returned tt, t')

module _ (db : PrismaClient) where
  unfoldable pub create_run : RunRow → Table → Outcome (Unit {0}) × Table
  unfolding or_reject
  create_run r t = or_reject (db.create r t) (returned tt, t)

  -- `include: { startedBy }`
  unfoldable pub started_by_of : Option ℕ → Option RunStartedBy
  started_by_of none = none
  started_by_of (some u) = db.started_by u

  found_snapshot : Option RunRow → Outcome (Option RunSnapshot)
  unfolding started_by_of
  found_snapshot none = returned none
  found_snapshot (some r) = do
    s ← to_snapshot r (started_by_of r.started_by_user_id)
    returned (some s)

  unfoldable pub get_by_id : ℕ → Table → Outcome (Option RunSnapshot)
  unfolding found_snapshot
  get_by_id id t = found_snapshot (db.find_unique id t)

  unfoldable pub save_status : ℕ → RunStatus → Table → Outcome (Unit {0}) × Table
  unfolding or_reject
  save_status id s t = or_reject (db.update id (set_status s) t) (returned tt, t)

  unfoldable pub save_selected_idea_ids : ℕ → List ℕ → Table → Outcome (Unit {0}) × Table
  unfolding or_reject
  save_selected_idea_ids id ids t = or_reject (db.update id (set_selected ids) t) (returned tt, t)

  unfoldable pub save_recovery_attempt : ℕ → ℕ → Table → Outcome (Unit {0}) × Table
  unfolding or_reject
  save_recovery_attempt id n t = or_reject (db.update id (set_attempts n) t) (returned tt, t)

  -- `result.count === 1`
  won : Table × ℕ → Bool × Table
  won (t, n) = (n == 1, t)

  unfoldable pub save_rating : ℕ → Option ℕ → Table → Bool × Table
  unfolding won
  save_rating id rating t = won (db.update_many (is_unfinalized id) (set_rating rating) t)

  unfoldable pub save_output_edited : ℕ → Table → Bool × Table
  unfolding won
  save_output_edited id t = won (db.update_many (is_unfinalized id) set_edited t)

  unfoldable pub save_finalized_at : ℕ → ℕ → Table → Bool × Table
  unfolding won
  save_finalized_at id at t = won (db.update_many (is_unfinalized id) (set_finalized at) t)

  unfoldable pub set_cancel_requested : ℕ → Table → Table
  set_cancel_requested id t = (db.update_many (is_cancelable id) set_requested t).0

  unfoldable pub attempt_cancel : ℕ → ℕ → Table → Bool × Table
  unfolding won
  attempt_cancel id at t = won (db.update_many (is_cancelable id) (set_cancelled at) t)

  unfoldable pub set_pipeline_finished_at : ℕ → ℕ → Table → Table
  set_pipeline_finished_at id at t = (db.update_many (is_unfinished id) (set_finished at) t).0

  unfoldable pub find_interrupted_running : Table → Outcome (List RunSnapshot)
  find_interrupted_running t = to_snapshots (db.find_many is_interrupted_running t)

  unfoldable pub find_cancel_requested_leftovers : Table → Outcome (List RunSnapshot)
  find_cancel_requested_leftovers t = to_snapshots (db.find_many is_cancel_leftover t)

  unfoldable pub count_by_user_and_type : ℕ → RunTaskType → Table → ℕ
  count_by_user_and_type user type t =
      db.count_rows (λ r. is_user user r.started_by_user_id && same_task_type r.task_type type) t

  -- The loop of `finalizeExpiredReviews` over the rows that were read.
  unfoldable pub finalize_rows : ℕ → List RunRow → Table → ℕ → ℕ × Table
  finalize_rows ttl [] t locked = (locked, t)
  finalize_rows ttl (r ∷ rs) t locked = elim r.pipeline_finished_at [
    | none ↦ finalize_rows ttl rs t locked
    | some at ↦
        let (t', n) = db.update_many (is_unfinalized r.id) (set_finalized (at + ttl)) t in
        finalize_rows ttl rs t' (locked + n)
  ]

  unfoldable pub finalize_expired_reviews : ℕ → ℕ → Table → ℕ × Table
  finalize_expired_reviews now ttl t = finalize_rows ttl (db.find_many (is_expired now ttl) t) t 0

  unfoldable pub claimed_snapshot : RunRow → Outcome (Option RunSnapshot)
  claimed_snapshot next = do s ← to_snapshot (set_status running next) none; returned (some s)

  -- One round of `claimNextQueued` and of `claimNextInterrupted`: `none` asks for another round.
  -- Between the read and the conditional update other clients may write to the table, as `others`.
  unfoldable pub claim_round :
      (RunRow → Bool)
      → (Table → Table)
      → Option RunRow
      → Table
      → Option (Outcome (Option RunSnapshot)) × Table
  unfolding claimed_snapshot
  claim_round w others none t = (some (returned none), t)
  claim_round w others (some next) t = elim (assert_transition next.status running) [
    | thrown e ↦ (some (thrown e), t)
    | returned _ ↦
        let (t', n) =
          db.update_many (λ r. has_id next.id r && w r) (set_status running) (others t) in
        if n == 1 then (some (claimed_snapshot next), t') else (none, t')
  ]

  -- The recursion, over a schedule that has an entry for each round; `none` when it has ended.
  unfoldable pub claim_next :
      (RunRow → Bool) → List (Table → Table) → Table → Option (Outcome (Option RunSnapshot)) × Table
  claim_next w [] t = (none, t)
  claim_next w (others ∷ schedule) t =
      let (result, t') = claim_round w others (db.find_first w t) t in
      elim result [ some o ↦ (some o, t') | none ↦ claim_next w schedule t' ]

  unfoldable pub claim_next_queued :
      List (Table → Table) → Table → Option (Outcome (Option RunSnapshot)) × Table
  claim_next_queued = claim_next is_queued

  unfoldable pub claim_next_interrupted :
      List (Table → Table) → Table → Option (Outcome (Option RunSnapshot)) × Table
  claim_next_interrupted = claim_next is_resumable
