-- ===== src/Gateway/EmbeddingCircuit/Laws.antt =====
-- When the circuit is open, and how many trials it lets through.
use content_chain.Prelude.{
  ℕ, suc, ◌+◌, ◌≤◌, ◌<◌, ◌≡◌, refl, true, false, List, [], ◌∷◌, arith, leb, length,
}
use content_chain.Gateway.EmbeddingCircuit.{
  EmbeddingCircuitBreaker, closed_circuit, is_cooled_down, should_skip_embed, is_circuit_open,
  record_embed_failure, record_embed_success,
}

-- Failures one after the other, at the given times, the last one first.
abbrev pub after_failures : List ℕ → EmbeddingCircuitBreaker → EmbeddingCircuitBreaker
after_failures [] b = b
after_failures (now ∷ before) b = record_embed_failure now (after_failures before b)

failures-after :
    (times : List ℕ) (b : EmbeddingCircuitBreaker)
    → let c = after_failures times b in
      (c.failures ≡ b.failures + length times)
      × (c.open_after ≡ b.open_after)
      × (c.cooldown_ms ≡ b.cooldown_ms)
unfolding record_embed_failure
failures-after [] b = (ground arith, refl, refl)
failures-after (now ∷ before) b = ground (arith, failures-after before b)

-- After failures in a row since the circuit was closed, the last one at `at`, embeddings are skipped
-- until the cooldown has passed exactly when the failures are as many as it takes to open it.
pub should_skip_embed-after_failures :
    (before : List ℕ) (at now open_after cooldown : ℕ)
    → now < at + cooldown
    → let c = after_failures (at ∷ before) (closed_circuit open_after cooldown) in
      ((should_skip_embed now c).0 ≡ leb open_after (suc (length before)))
      × (is_circuit_open now c ≡ leb open_after (suc (length before)))
unfolding should_skip_embed is_circuit_open record_embed_failure
should_skip_embed-after_failures before at now open_after cooldown early =
    let facts = failures-after before (closed_circuit open_after cooldown) in
    (ground (arith, facts), ground (arith, facts))

-- When the circuit is open and has cooled down, and no trial is going on, one call is let through,
-- and a call after it, at any time, is skipped while the trial is not recorded.
pub should_skip_embed-one_trial :
    (now later : ℕ) (b : EmbeddingCircuitBreaker)
    → b.open_after ≤ b.failures
    → is_cooled_down now b ≡ true
    → b.trial_in_flight ≡ false
    → let (skip, c) = should_skip_embed now b in
      (skip ≡ false) × ((should_skip_embed later c).0 ≡ true)
unfolding should_skip_embed
should_skip_embed-one_trial now later b opened cooled idle = (ground arith, ground arith)

-- A success closes the circuit: no call is skipped until as many failures as it takes to open it
-- have followed.
pub should_skip_embed-after_success :
    (times : List ℕ) (now : ℕ) (b : EmbeddingCircuitBreaker)
    → length times < b.open_after
    → (should_skip_embed now (after_failures times (record_embed_success b))).0 ≡ false
unfolding should_skip_embed record_embed_success
should_skip_embed-after_success times now b few =
    ground (arith, failures-after times (record_embed_success b))
