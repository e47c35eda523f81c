-- ===== src/Gateway/EmbeddingCircuit.antt =====
-- apps/ai-provider-gateway/src/cache/semantic/embedding-circuit-breaker.ts. `now` is the clock at the
-- call.
pub mod Laws
use content_chain.Prelude.{ℕ, ◌+◌, ◌≡◌, Bool, true, false, not, ◌&&◌, if◌then◌else◌, ltb, leb}

pub record EmbeddingCircuitBreaker : Type 0 where
  pub failures : ℕ
  pub open_after : ℕ
  pub cooldown_ms : ℕ
  pub opened_at_ms : ℕ
  pub trial_in_flight : Bool

abbrev pub closed_circuit : ℕ → ℕ → EmbeddingCircuitBreaker
closed_circuit open_after cooldown = record {
  failures = 0;
  open_after = open_after;
  cooldown_ms = cooldown;
  opened_at_ms = 0;
  trial_in_flight = false;
}

-- `Date.now() - this.openedAtMs >= this.cooldownMs`
abbrev pub is_cooled_down : ℕ → EmbeddingCircuitBreaker → Bool
is_cooled_down now b = leb (b.opened_at_ms + b.cooldown_ms) now

unfoldable pub should_skip_embed : ℕ → EmbeddingCircuitBreaker → Bool × EmbeddingCircuitBreaker
should_skip_embed now b =
    if ltb b.failures b.open_after
    then (false, b)
    else (if not (is_cooled_down now b)
        then (true, b)
        else (if b.trial_in_flight
            then (true, b)
            else (false, record b { trial_in_flight = true })))

unfoldable pub is_circuit_open : ℕ → EmbeddingCircuitBreaker → Bool
is_circuit_open now b = leb b.open_after b.failures && not (is_cooled_down now b)

unfoldable pub record_embed_failure : ℕ → EmbeddingCircuitBreaker → EmbeddingCircuitBreaker
record_embed_failure now b =
    let failures = b.failures + 1 in
    record b {
      failures = failures;
      trial_in_flight = false;
      opened_at_ms = if leb b.open_after failures then now else b.opened_at_ms;
    }

unfoldable pub record_embed_success : EmbeddingCircuitBreaker → EmbeddingCircuitBreaker
record_embed_success b = record b { failures = 0; opened_at_ms = 0; trial_in_flight = false }
