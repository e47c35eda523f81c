-- ===== src/Tests/Claims.antt =====
-- Claims, controllers, the worker's places and the admissions of guests.
use content_chain.Runs.Status.{assert_transition}
use content_chain.Prelude.{
  ℕ, ◌+◌, ◌≤◌, ◌≡◌, refl, ◌≢◌, ◌⊎◌, true, ◌&&◌, List, [], ◌∷◌, none, arith, count, is_some,
}
use content_chain.Prelude.Int.{pos}
use content_chain.Shared.Enums.{running, queued}
use content_chain.Guest.Quota.{RedisClient, runs, ok, try_incr}
use content_chain.Guest.Quota.Laws.{admissions, try_incr-Counts, admissions-le-cap}
use content_chain.Runs.Record.{RunSnapshot, Table, to_snapshot}
use content_chain.Runs.Prisma.{has_id}
use content_chain.Runs.Repository.{
  is_queued, is_resumable, claim_next_queued, claim_next_interrupted, claim_next, claim_round,
}
use content_chain.Runs.Repository.Claim.{
  ClaimsOldest, ClaimedIn, claim_next_oldest, claim_next_exclusive, claim_next_returns,
}
use content_chain.Runs.Abort.{RunAbortRegistry}
use content_chain.Runs.Worker.{
  Worker, started, Reach, here, next, looping, claiming, begin_drain, test_passes, claim_some,
  resume,
}
use content_chain.Runs.Worker.Capacity.{worker_capacity}
use content_chain.Tests.Samples.{client, redis, sample, table, world, table-DistinctIds, oldest}

claim_next_oldest_example :
    ClaimsOldest client is_queued table (claim_next_queued client ((λ v. v) ∷ []) table)
    × ClaimsOldest client is_resumable table (claim_next_interrupted client ((λ v. v) ∷ []) table)
claim_next_oldest_example = claim_next_oldest client [] table table-DistinctIds

-- The queued run is taken by another client in the first round, and a new one comes instead.
abbrev taken : Table → Table
taken t = sample 8 queued ∷ []

abbrev claimed_table : Table
claimed_table = sample 8 running ∷ []

abbrev claimed_run : RunSnapshot
claimed_run = record { run = sample 8 running; started_by = none }

claim_next_exclusive_example :
    ClaimedIn client is_queued (taken ∷ (λ v. v) ∷ []) table claimed_run claimed_table
    × (count (λ r. has_id 8 r && is_queued r) claimed_table ≡ 0)
    × (running ≡ running)
unfolding claim_next_queued claim_next claim_round oldest assert_transition to_snapshot
claim_next_exclusive_example =
    claim_next_exclusive client (taken ∷ (λ v. v) ∷ []) table claimed_table claimed_run refl

claim_next_returns_example :
    (is_some (claim_next_queued client (taken ∷ (λ v. v) ∷ []) table).0 ≡ true)
    × (is_some (claim_next_interrupted client (taken ∷ (λ v. v) ∷ []) table).0 ≡ true)
claim_next_returns_example =
    claim_next_returns client (taken ∷ []) table (λ u d. (tt, tt), tt) table-DistinctIds

abbrev registry : RunAbortRegistry
registry = world.registry

-- One run is claimed, and one is resumed.
abbrev busy : Worker
busy = record { in_flight = 2; drain = looping; pumps = 0; claimed = 1; resumed = 1 }

Reach-busy : Reach 1 started busy
Reach-busy =
    next
      (next
        (next (next here (begin_drain started 0 refl refl))
          (test_passes (record started { drain = looping; pumps = 0 }) refl (omega arith)))
        (claim_some (record started { drain = claiming; pumps = 0 }) refl))
      (resume (record { in_flight = 1; drain = looping; pumps = 0; claimed = 1; resumed = 0 }))

worker_capacity_example : (2 ≡ 1 + 1) × (1 ≤ 1) × (2 ≤ 1 + 1)
worker_capacity_example = worker_capacity 1 busy Reach-busy

try_incr-Counts_example :
    let (a, c) = try_incr redis (runs 0) 2 1000 world.quota in
    (m : ℕ) × (c (runs 0) ≡ pos m)
    × (((a ≡ ok) × (m ≡ 0 + 1) × (m ≤ 2)) ⊎ ((a ≢ ok) × (0 ≤ m) × (m ≤ 0 + 1)))
try_incr-Counts_example = try_incr-Counts redis (runs 0) 2 1000 0 world.quota refl

-- Redis rejects the second call's commands.
abbrev rejecting : RedisClient
rejecting = record redis {
  incr = λ k c. none;
  decr = λ k c. none;
  pexpire = λ k ms c. none;
  incr_lem = λ k c d e. cc;
  decr_lem = λ k c d e. cc;
  pexpire_lem = λ k ms c d e. cc;
}

abbrev calls : List (RedisClient × ℕ)
calls = (redis, 1000) ∷ (rejecting, 2000) ∷ (redis, 3000) ∷ (redis, 4000) ∷ []

admissions-le-cap_example : admissions (runs 0) 2 calls world.quota ≤ 2
admissions-le-cap_example = admissions-le-cap (runs 0) 2 calls world.quota refl
