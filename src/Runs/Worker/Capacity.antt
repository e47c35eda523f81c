-- ===== src/Runs/Worker/Capacity.antt =====
-- What MAX_CONCURRENT_RUNS bounds.
use content_chain.Prelude.{ℕ, ◌+◌, ◌≤◌, ◌<◌, ◌≡◌, arith}
use content_chain.Runs.Worker.{
  claiming, Worker, started, Step, enqueue, begin_drain, test_passes, test_fails, claim_none,
  claim_some, resume, finish_claimed, finish_resumed, Reach, here, next,
}

-- The counter is the number of executions; claimed ones are within the limit, with one place to
-- spare while a claim is awaited.
pub record Inv (max_concurrent : ℕ) (v : Worker) : Type 0 where
  pub counted : v.in_flight ≡ v.claimed + v.resumed
  pub within : v.claimed ≤ max_concurrent
  pub spare : v.drain ≡ claiming → v.claimed < max_concurrent

Step-Inv : {m : ℕ} {v w : Worker} → Step m v w → Inv m v → Inv m w
Step-Inv (enqueue v) i = ground arith
Step-Inv (begin_drain v n d p) i = ground arith
Step-Inv (test_passes v d h) i = ground arith
Step-Inv (test_fails v d h) i = ground arith
Step-Inv (claim_none v d) i = ground arith
Step-Inv (claim_some v d) i = ground (arith, i.spare d)
Step-Inv (resume v) i = ground arith
Step-Inv (finish_claimed v n c) i = ground arith
Step-Inv (finish_resumed v n c) i = ground arith

Reach-Inv : {m : ℕ} {u v : Worker} → Inv m u → Reach m u v → Inv m v
Reach-Inv i here = i
Reach-Inv i (next r s) = Step-Inv s (Reach-Inv i r)

started-Inv : (m : ℕ) → Inv m started
started-Inv m = ground arith

-- However the pieces interleave, the counter is the number of executions, and at most
-- MAX_CONCURRENT_RUNS of them are of claimed runs.
pub worker_capacity :
    (m : ℕ) (v : Worker)
    → Reach m started v
    → (v.in_flight ≡ v.claimed + v.resumed) × (v.claimed ≤ m) × (v.in_flight ≤ m + v.resumed)
worker_capacity m v r =
    let i = Reach-Inv (started-Inv m) r in (i.counted, i.within, omega (arith, i.counted, i.within))
