-- ===== src/Content/Graph/Stores.antt =====
-- What the graph stores, and what its end says of the verdict.
use content_chain.Prelude.{
  ℕ, ◌≤◌, ◌≡◌, refl, ◌⊎◌, inl, inr, true, Option, none, some, arith, Bool-cases,
}
use content_chain.Shared.Exception.{DomainException, Outcome, returned, thrown}
use content_chain.Content.Types.{
  PageOutline, PageDocument, VerifierVerdict, ContentResults, ContentGraphState, next_refine_count,
}
use content_chain.Content.Graph.{
  Services, Held, verify, judged, saved, as_failed, written, refined_document, refined_outline,
  numbered, persist_drawn, persist_verified, refine_document_node, refine_outline_node,
  fail_run_node, save_pipeline_state,
}
use content_chain.Content.Graph.Walk.{is_ok, again}
use content_chain.Content.Graph.Laws.{attempts, Returns}

-- A document is stored only with a verdict that is ok.
abbrev pub Verified : ContentResults → ContentResults → Type 0
Verified before after =
    (after.document ≡ before.document)
    ⊎ ((d : PageDocument) × (v : VerifierVerdict) × (after.document ≡ some (d, v)) × (v.ok ≡ true))

-- A state at the end: the draft passed, or the run failed after two refinements with nothing stored.
abbrev pub Ended : {C : Type 0} → ContentResults → ContentGraphState C → ContentResults → Type 0
Ended before s after =
    ((s.failed_code ≡ none) × (is_ok s.verdict ≡ true))
    ⊎ ((s.failed_code ≡ some "VERIFIER_FAILED")
        × (attempts s ≡ 2)
        × (after.document ≡ before.document)
        × (after.outline ≡ before.outline))

module _ {C W : Type 0} (services : Services C W) where
  abbrev pub Final : ContentResults → Outcome (ContentGraphState C) × Held services → Type 0
  Final before (thrown x, h) = Verified before h.0
  Final before (returned s, h) = Verified before h.0 × Ended before s h.0

  saved_either {κ} :
      (f : ContentResults → ContentResults) (s : ContentGraphState C) (o : Outcome (Unit {0}) × W)
      (store : ContentResults) (P : Outcome (ContentGraphState C) × Held services → Type κ)
      → ((w : W) → P (returned s, (f store, w)))
      → ((x : DomainException) (w : W) → P (thrown x, (store, w)))
      → P (saved services f s o store)
  unfolding saved
  saved_either f s (returned _, w) store P yields fails = yields w
  saved_either f s (thrown x, w) store P yields fails = fails x w

  written-Final :
      (f : ContentResults → ContentResults) (s : ContentGraphState C) (o : Outcome (Unit {0}) × W)
      (store : ContentResults)
      → Verified store (f store)
      → s.failed_code ≡ none
      → is_ok s.verdict ≡ true
      → Final store (written services f s o store)
  unfolding written save_pipeline_state
  written-Final f s (thrown x, w) store v n fine = inl refl
  written-Final f s (returned _, w) store v n fine =
      saved_either _ s (services.write w) (f store) (Final store) (λ w'. (v, inl (n, fine)))
        (λ x w'. v)

  pub fail_run-Final :
      (s : ContentGraphState C) (h : Held services)
      → attempts s ≡ 2
      → Final h.0 (fail_run_node services s h)
  unfolding fail_run_node save_pipeline_state as_failed
  fail_run-Final s (store, w) two =
      saved_either _ s (services.write w) store (λ r. Final store (as_failed services s r))
        (λ w'. (inl refl, inr (refl, two, refl, refl))) (λ x w'. inl refl)

  pub persist_drawn-Final :
      (o : Option PageOutline) (s : ContentGraphState C) (h : Held services)
      → s.failed_code ≡ none
      → is_ok s.verdict ≡ true
      → Final h.0 (persist_drawn services o s h)
  unfolding persist_drawn
  persist_drawn-Final none s h n fine = inl refl
  persist_drawn-Final (some o) s (store, w) n fine =
      written-Final _ s (services.write w) store (inl refl) n fine

  pub persist_verified-Final :
      (d : Option PageDocument) (v : Option VerifierVerdict) (s : ContentGraphState C)
      (h : Held services)
      → s.verdict ≡ v
      → s.failed_code ≡ none
      → is_ok v ≡ true
      → Final h.0 (persist_verified services d v s h)
  unfolding persist_verified
  persist_verified-Final none v s h e n fine = inl refl
  persist_verified-Final (some d) none s h e n fine = inl refl
  persist_verified-Final (some d) (some v) s (store, w) e n fine =
      written-Final _ s (services.write w) store (inr (d, v, refl, fine)) n (rw e fine)

  -- The answer, if there is one, is a final one.
  abbrev pub FinalIfAny :
      ContentResults → Option (Outcome (ContentGraphState C) × Held services) → Type 0
  FinalIfAny before none = Unit
  FinalIfAny before (some r) = Final before r

  abbrev pub Next : Type 0
  Next =
      ContentGraphState C → Held services → Option (Outcome (ContentGraphState C) × Held services)

  -- A state in which the loop stands at the verifier.
  abbrev pub Open : ContentGraphState C → Type 0
  Open s = (s.failed_code ≡ none) × (attempts s ≤ 2)

  pub again-Final :
      (k : Next) (before : ContentResults) (r : Outcome (ContentGraphState C) × Held services)
      → ((x : DomainException) (h : Held services) → r ≡ (thrown x, h) → Verified before h.0)
      → Returns services r (λ s h. FinalIfAny before (k s h))
      → FinalIfAny before (again services k r)
  unfolding again
  again-Final k before (returned s, h) stays f = f s h refl
  again-Final k before (thrown x, h) stays f = stays x h refl

  -- A node that throws has changed no result.
  abbrev pub Throws : Outcome (ContentGraphState C) × Held services → ContentResults → Type 0
  Throws r before = (x : DomainException) (h : Held services) → r ≡ (thrown x, h) → h.0 ≡ before

  saved-Throws :
      (f : ContentResults → ContentResults) (s : ContentGraphState C) (o : Outcome (Unit {0}) × W)
      (store : ContentResults)
      → Throws (saved services f s o store) store
  unfolding saved
  saved-Throws f s (returned _, w) store x h e = cc
  saved-Throws f s (thrown y, w) store x h e = ground arith

  pub verify-Throws :
      (s : ContentGraphState C) (h : Held services) → Throws (verify services s h) h.0
  unfolding verify judged
  verify-Throws s (store, w) = judged-Throws (services.verifier s w)
    where
      judged-Throws : (r : Outcome VerifierVerdict × W) → Throws (judged services s store r) store
      judged-Throws (thrown y, w') x h e = ground arith
      judged-Throws (returned v, w') x h e = elim (Bool-cases v.ok) [
        | inl fine ↦ ground arith
        | inr bad ↦
            saved-Throws (λ r. r) (record s { verdict = some v }) (services.append_log s v w') store
              x h (ground arith)
      ]

  pub refine_document-Throws :
      (s : ContentGraphState C) (h : Held services) → Throws (refine_document_node services s h) h.0
  unfolding refine_document_node refined_document save_pipeline_state
  refine_document-Throws s (store, w) =
      go (services.refine_document_agent s w) (next_refine_count s.copy_refine_count)
    where
      go :
          (r : Outcome PageDocument × W) (o : Outcome ℕ)
          → Throws (refined_document services s store r o) store
      go (thrown y, w') o x h e = ground arith
      go (returned d, w') (thrown y) x h e = ground arith
      go (returned d, w') (returned n) x h e = saved-Throws _ _ (services.write w') store x h e

  pub refine_outline-Throws :
      (s : ContentGraphState C) (h : Held services) → Throws (refine_outline_node services s h) h.0
  unfolding refine_outline_node refined_outline save_pipeline_state
  refine_outline-Throws s (store, w) =
      go (numbered services s (services.refine_outline_agent s w))
        (next_refine_count s.outline_refine_count)
    where
      go :
          (r : Outcome PageOutline × W) (o : Outcome ℕ)
          → Throws (refined_outline services s store r o) store
      go (thrown y, w') o x h e = ground arith
      go (returned d, w') (thrown y) x h e = ground arith
      go (returned d, w') (returned n) x h e = saved-Throws _ _ (services.write w') store x h e
