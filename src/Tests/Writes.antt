-- ===== src/Tests/Writes.antt =====
-- Recovery, cancellation, transitions and reviews on the sample table.
use content_chain.Prelude.{ℕ, ◌≡◌, refl, ◌↔◌, List, [], ◌∷◌, ◌++◌, some, if◌then◌else◌, ◌==◌}
use mathlib.Core.Option
use content_chain.Shared.Enums.{completed, failed, cancelled}
use content_chain.Shared.Exception.{DomainException, returned, thrown}
use content_chain.Runs.Status.{can_transition}
use content_chain.Runs.Record.{RunRow, to_snapshot}
use content_chain.Runs.Rows.{row}
use content_chain.Runs.Repository.{get_by_id, set_cancel_requested, set_cancelled, set_requested}
use content_chain.Runs.Abort.{request_cancel}
use content_chain.Runs.World.{World, completes, publishes, run_cancelled, run_status, run_log}
use content_chain.Runs.Lifecycle.{transition, no_extras}
use content_chain.Runs.Lifecycle.Laws.{
  announced, moved, transition_legal, transition_overwrites_cancelled,
}
use content_chain.Runs.Recover.{recover_interrupted_runs}
use content_chain.Runs.Recover.Laws.{recovered, recover_interrupted_runs_lem}
use content_chain.Runs.Cancel.{cancel_run}
use content_chain.Runs.Cancel.Laws.{cancel_log, cancel_run_wins, cancel_run_loses}
use content_chain.Runs.Review.{rate_run, finalize_review, assert_run_reviewable}
use content_chain.Runs.Review.Laws.{IsReviewable, assert_run_reviewable_iff, review_stays_finalized}
use content_chain.Tests.Samples.{
  client, redis, env, ann, sample, running_run, finished_run, locked_run, cancelled_run, table,
  world, table-DistinctIds, table-readable, snapshot,
}

recover_interrupted_runs_example :
    let (o, w) = recover_interrupted_runs client 500 world in
    (o ≡ returned tt) × ((j : ℕ) → row j w.table ≡ Option.map (recovered 500) (row j table))
recover_interrupted_runs_example =
    recover_interrupted_runs_lem client 500 world table-DistinctIds table-readable

transition_legal_example :
    let (o, w) = transition client 500 running_run completed no_extras world in
    (o ≡ returned (record running_run { status = completed }))
    × ((j : ℕ)
        → row j w.table ≡ (if j == 3 then some (moved 500 completed running_run) else row j table))
    × (w.hub_calls ≡ announced 3 completed no_extras ++ [])
    × (w.logs ≡ [])
    × (w.registry ≡ world.registry)
    × (w.notices ≡ [])
unfolding can_transition
transition_legal_example =
    transition_legal client 500 running_run no_extras world completed running_run refl refl

abbrev cancelled_world : World
cancelled_world = record world { table = cancelled_run ∷ [] }

transition_overwrites_cancelled_example :
    (q : RunRow) × (row 3
        (transition client 500 running_run completed no_extras cancelled_world).1.table
      ≡ some q)
    × (q.status ≡ completed)
transition_overwrites_cancelled_example =
    transition_overwrites_cancelled client 500 running_run no_extras cancelled_world cancelled_run
      refl refl refl

cancel_run_wins_example :
    let w = (cancel_run client (λ t. t) (λ t. t) 500 3 ann world).1 in
    ((j : ℕ)
      → row j w.table ≡ (
          if j == 3
          then some (set_cancelled 500 (set_requested running_run))
          else row j (set_cancel_requested client 3 table)))
    × (w.registry ≡ request_cancel 3 world.registry)
    × (w.logs ≡ cancel_log 500 3 ann (snapshot running_run) ∷ [])
    × (w.hub_calls
        ≡ completes 3
          ∷ publishes (run_cancelled 3)
          ∷ publishes (run_status 3 cancelled)
          ∷ publishes (run_log (cancel_log 500 3 ann (snapshot running_run)))
          ∷ [])
unfolding get_by_id to_snapshot set_cancel_requested
cancel_run_wins_example =
    cancel_run_wins client 3 ann (λ t. t) (λ t. t) 500 (snapshot running_run) world
      (set_requested running_run) table-DistinctIds refl refl refl refl refl

-- The run fails between the two conditional updates.
abbrev finish_meanwhile : List RunRow → List RunRow
finish_meanwhile t = sample 3 failed ∷ []

cancel_run_loses_example :
    let w = (cancel_run client (λ t. t) finish_meanwhile 500 3 ann world).1 in
    ((j : ℕ) → row j w.table ≡ row j (sample 3 failed ∷ []))
    × (w.registry ≡ world.registry)
    × (w.logs ≡ [])
    × (w.hub_calls ≡ [])
    × (row 3 table ≡ some (sample 3 failed)
        → ((t : List RunRow) → finish_meanwhile t ≡ t)
        → (j : ℕ) → row j w.table ≡ row j table)
unfolding get_by_id to_snapshot set_cancel_requested
cancel_run_loses_example =
    cancel_run_loses client 3 ann (λ t. t) finish_meanwhile 500 (snapshot running_run) world
      (sample 3 failed) (tt, tt) refl refl refl refl refl

review_stays_finalized_example :
    ((x : DomainException) × (rate_run client redis env 130 7 (some 5) ann world
        ≡ (thrown x, world)))
    × ((x : DomainException) × (finalize_review client redis env 130 7 ann world
          ≡ (thrown x, world)))
review_stays_finalized_example =
    review_stays_finalized client redis env 130 7 120 ann world locked_run refl refl (some 5)

assert_run_reviewable_iff_example :
    (assert_run_reviewable (some (snapshot finished_run)) 7 150 100
      ≡ returned (snapshot finished_run))
    ↔ IsReviewable (some (snapshot finished_run)) 7 150 100 (snapshot finished_run)
assert_run_reviewable_iff_example =
    assert_run_reviewable_iff (some (snapshot finished_run)) 7 150 100 (snapshot finished_run)
