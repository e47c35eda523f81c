-- ===== src/Tests/Calls.antt =====
-- Calls of the gateway.
use content_chain.Prelude.{
  ℕ, ◌+◌, ◌*◌, ◌≤◌, ◌≡◌, refl, true, false, [], ◌∷◌, Option, some, arith, if◌then◌else◌, leb,
}
use content_chain.Gateway.EmbeddingCircuit.{
  EmbeddingCircuitBreaker, closed_circuit, should_skip_embed, is_circuit_open,
}
use content_chain.Gateway.EmbeddingCircuit.Laws.{
  after_failures, should_skip_embed-after_failures, should_skip_embed-one_trial,
}
use content_chain.Gateway.Resilience.{
  http_exception, retry_policy_defaults, Answer, answered, failed_with, refused, try_alias,
  execute_with_retry_and_fallback,
}
use content_chain.Gateway.Resilience.Laws.{Ended, longest, try_alias_bounds, execute_bounds}

-- A provider that counts its calls, fails twice with status 503, and then answers.
abbrev flaky : ℕ → ℕ → ℕ → (ℕ × Answer ℕ) × ℕ
flaky alias attempt calls =
    ((100, if leb 2 calls then answered 7 else failed_with (http_exception 503 true)), calls + 1)

try_alias_bounds_example :
    let r = try_alias flaky retry_policy_defaults 1 0 in
    (r.attempts ≤ 3)
    × Ended retry_policy_defaults 3 r.attempts r.outcome
    × (r.spent ≤ longest flaky retry_policy_defaults 30000 3)
try_alias_bounds_example = try_alias_bounds flaky retry_policy_defaults 1 29999 0 refl

execute_bounds_example :
    let (o, r) = execute_with_retry_and_fallback flaky retry_policy_defaults 1 (some 2) 0 in
    (r.attempts ≤ 2 * 3)
    × (r.spent ≤ 2 * longest flaky retry_policy_defaults 30000 3)
    × (◌≡◌ {A = Option ℕ} (some 2) (some 1)
        → (o ≡ refused (http_exception 400 true)) × (r.world ≡ 0))
execute_bounds_example = execute_bounds flaky retry_policy_defaults 1 29999 (some 2) 0 refl

should_skip_embed-after_failures_example :
    let c = after_failures (30 ∷ 20 ∷ 10 ∷ []) (closed_circuit 3 100) in
    ((should_skip_embed 50 c).0 ≡ leb 3 3) × (is_circuit_open 50 c ≡ leb 3 3)
should_skip_embed-after_failures_example =
    should_skip_embed-after_failures (20 ∷ 10 ∷ []) 30 50 3 100 (omega arith)

abbrev open_circuit : EmbeddingCircuitBreaker
open_circuit = record (closed_circuit 3 100) { failures = 3; opened_at_ms = 30 }

should_skip_embed-one_trial_example :
    let (skip, c) = should_skip_embed 130 open_circuit in
    (skip ≡ false) × ((should_skip_embed 131 c).0 ≡ true)
should_skip_embed-one_trial_example =
    should_skip_embed-one_trial 130 131 open_circuit (omega arith) refl refl
