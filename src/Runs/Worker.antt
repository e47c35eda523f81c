-- ===== src/Runs/Worker.antt =====
-- apps/api/src/runs/application/lifecycle/in-process-run.worker.ts: how the worker counts the runs
-- that it executes. Its asynchronous code is cut at each await, and the pieces interleave freely; the
-- chain `pumpTail` lets one drain run at a time, and keeps those that wait.
pub mod Capacity
pub mod Execution
use content_chain.Prelude.{ℕ, suc, ◌+◌, ◌-◌, ◌≤◌, ◌<◌, ◌≡◌, Bool, true, false}

-- Where the one active drain stands.
pub data Drain : Type 0 where
  idle : Drain
  -- Before the test of the loop.
  looping : Drain
  -- The test has passed, and the claim is awaited.
  claiming : Drain

pub record Worker : Type 0 where
  pub in_flight : ℕ
  pub drain : Drain
  -- The drains that are chained behind.
  pub pumps : ℕ
  -- The executions that are going on, of claimed runs and of runs resumed after a human's choice.
  pub claimed : ℕ
  pub resumed : ℕ

abbrev pub started : Worker
started = record { in_flight = 0; drain = idle; pumps = 1; claimed = 0; resumed = 0 }

pub data Step (max_concurrent : ℕ) : Worker → Worker → Type 0 where
  -- notifyQueued.
  enqueue : (v : Worker) → Step max_concurrent v (record v { pumps = v.pumps + 1 })
  begin_drain :
      (v : Worker) (n : ℕ)
      → v.drain ≡ idle
      → v.pumps ≡ suc n
      → Step max_concurrent v (record v { drain = looping; pumps = n })
  test_passes :
      (v : Worker)
      → v.drain ≡ looping
      → v.in_flight < max_concurrent
      → Step max_concurrent v (record v { drain = claiming })
  test_fails :
      (v : Worker)
      → v.drain ≡ looping
      → max_concurrent ≤ v.in_flight
      → Step max_concurrent v (record v { drain = idle })
  -- No run to claim, or a claim that throws.
  claim_none : (v : Worker) → v.drain ≡ claiming → Step max_concurrent v (record v { drain = idle })
  claim_some :
      (v : Worker)
      → v.drain ≡ claiming
      → Step max_concurrent v
          (record v { drain = looping; in_flight = v.in_flight + 1; claimed = v.claimed + 1 })
  -- notifyHitlResumed, which tests nothing: the caller has accepted the choice, and which runs wait
  -- for one is not in the worker's state.
  resume :
      (v : Worker)
      → Step max_concurrent v (record v { in_flight = v.in_flight + 1; resumed = v.resumed + 1 })
  finish_claimed :
      (v : Worker) (n : ℕ)
      → v.claimed ≡ suc n
      → Step max_concurrent v
          (record v { in_flight = v.in_flight - 1; claimed = n; pumps = v.pumps + 1 })
  finish_resumed :
      (v : Worker) (n : ℕ)
      → v.resumed ≡ suc n
      → Step max_concurrent v
          (record v { in_flight = v.in_flight - 1; resumed = n; pumps = v.pumps + 1 })

pub data Reach (max_concurrent : ℕ) (u : Worker) : Worker → Type 0 where
  here : Reach max_concurrent u u
  next :
      {v w : Worker} → Reach max_concurrent u v → Step max_concurrent v w → Reach max_concurrent u w
