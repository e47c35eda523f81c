-- ===== src/Content/Graph/Laws.antt =====
-- How often a draft is refined, that the graph ends, and what it stores.
use content_chain.Prelude.{
  ℕ, ◌+◌, ◌≡◌, refl, ap, inl, inr, true, false, some, arith, if◌then◌else◌, Bool-cases,
}
use content_chain.Shared.Exception.{Outcome, returned, thrown}
use content_chain.Content.Types.{
  PageOutline, PageDocument, VerifierVerdict, ContentResults, ContentGraphState, can_refine,
  next_refine_count,
}
use content_chain.Content.Graph.{
  Services, Held, verify, judged, saved, save_pipeline_state, refined_outline, refine_outline_node,
  refined_document, refine_document_node,
}
use content_chain.Content.Graph.Walk.{is_copy}

abbrev pub attempts : {C : Type 0} → ContentGraphState C → ℕ
attempts s = if is_copy s.phase then s.copy_refine_count else s.outline_refine_count

module _ {C W : Type 0} (services : Services C W) where
  -- A node that returns hands on a state and a store.
  abbrev pub Returns :
      Outcome (ContentGraphState C) × Held services
      → (ContentGraphState C → Held services → Type 0)
      → Type 0
  Returns r P = (s : ContentGraphState C) (h : Held services) → r ≡ (returned s, h) → P s h

  saved-Returns :
      (f : ContentResults → ContentResults) (s : ContentGraphState C) (o : Outcome (Unit {0}) × W)
      (store : ContentResults)
      → Returns (saved services f s o store) (λ s' h. (s' ≡ s) × (h.0 ≡ f store))
  unfolding saved
  saved-Returns f s (returned _, w) store s' h e = (ground arith, ground arith)
  saved-Returns f s (thrown x, w) store s' h e = cc

  pub save-Returns :
      (s : ContentGraphState C) (h : Held services)
      → Returns
          (save_pipeline_state services s h)
          (λ s' h'. (s' ≡ s) × (h'.0.document ≡ h.0.document) × (h'.0.outline ≡ h.0.outline))
  unfolding save_pipeline_state
  save-Returns s (store, w) s' h' e =
      let (same, kept) = saved-Returns _ s (services.write w) store s' h' e in
      (same, ap (λ r. r.document) kept, ap (λ r. r.outline) kept)

  -- What the verifier leaves as it is.
  abbrev pub Judged :
      ContentGraphState C → ContentResults → ContentGraphState C → Held services → Type 0
  Judged s store s' h' =
      (attempts s' ≡ attempts s)
      × (s'.phase ≡ s.phase)
      × (s'.document ≡ s.document)
      × (s'.outline ≡ s.outline)
      × (s'.failed_code ≡ s.failed_code)
      × (h'.0 ≡ store)

  judged-Returns :
      (s : ContentGraphState C) (store : ContentResults) (r : Outcome VerifierVerdict × W)
      → Returns (judged services s store r) (Judged s store)
  unfolding judged
  judged-Returns s store (thrown x, w) s' h' e = cc
  judged-Returns s store (returned v, w) s' h' e = elim (Bool-cases v.ok) [
    | inl fine ↦ ground arith
    | inr bad ↦
        let (same, kept) =
          saved-Returns (λ r. r) (record s { verdict = some v }) (services.append_log s v w) store
            s' h' (ground arith) in
        rw same (refl, refl, refl, refl, refl, kept)
  ]

  pub verify-Returns :
      (s : ContentGraphState C) (h : Held services) → Returns (verify services s h) (Judged s h.0)
  unfolding verify
  verify-Returns s (store, w) = judged-Returns s store (services.verifier s w)

  -- What a refinement leaves as it is, with one attempt more counted.
  abbrev pub Refined :
      ContentGraphState C → ContentResults → ContentGraphState C → Held services → Type 0
  Refined s store s' h' =
      (s'.phase ≡ s.phase)
      × (s'.failed_code ≡ s.failed_code)
      × (h'.0.document ≡ store.document)
      × (h'.0.outline ≡ store.outline)

  refined_document-Returns :
      (s : ContentGraphState C) (store : ContentResults) (r : Outcome PageDocument × W)
      (o : Outcome ℕ)
      → Returns
          (refined_document services s store r o)
          (λ s' h'. Refined s store s' h' × (o ≡ returned s'.copy_refine_count))
  unfolding refined_document
  refined_document-Returns s store (thrown x, w) o s' h' e = cc
  refined_document-Returns s store (returned d, w) (thrown x) s' h' e = cc
  refined_document-Returns s store (returned d, w) (returned n) s' h' e =
      let (same, document, drawn) = save-Returns _ (store, w) s' h' e in
      rw same ((refl, refl, document, drawn), refl)

  refined_outline-Returns :
      (s : ContentGraphState C) (store : ContentResults) (r : Outcome PageOutline × W)
      (o : Outcome ℕ)
      → Returns
          (refined_outline services s store r o)
          (λ s' h'. Refined s store s' h' × (o ≡ returned s'.outline_refine_count))
  unfolding refined_outline
  refined_outline-Returns s store (thrown x, w) o s' h' e = cc
  refined_outline-Returns s store (returned d, w) (thrown x) s' h' e = cc
  refined_outline-Returns s store (returned d, w) (returned n) s' h' e =
      let (same, document, drawn) = save-Returns _ (store, w) s' h' e in
      rw same ((refl, refl, document, drawn), refl)

  next-count : (n m : ℕ) → next_refine_count n ≡ returned m → m ≡ n + 1
  unfolding next_refine_count can_refine
  next-count n m e = ground arith

  -- A refinement in the phase of the state counts one attempt.
  abbrev pub Counted :
      ContentGraphState C → ContentResults → ContentGraphState C → Held services → Type 0
  Counted s store s' h' = Refined s store s' h' × (attempts s' ≡ attempts s + 1)

  pub refine_document-Counted :
      (s : ContentGraphState C) (h : Held services)
      → is_copy s.phase ≡ true
      → Returns (refine_document_node services s h) (Counted s h.0)
  unfolding refine_document_node
  refine_document-Counted s (store, w) copying s' h' e =
      let (kept, count) = refined_document-Returns s store _ _ s' h' e in
      (
        kept,
        ground (arith, kept.0, copying, next-count s.copy_refine_count s'.copy_refine_count count),
      )

  pub refine_outline-Counted :
      (s : ContentGraphState C) (h : Held services)
      → is_copy s.phase ≡ false
      → Returns (refine_outline_node services s h) (Counted s h.0)
  unfolding refine_outline_node
  refine_outline-Counted s (store, w) drawing s' h' e =
      let (kept, count) = refined_outline-Returns s store _ _ s' h' e in
      (
        kept,
        ground (
          arith,
          kept.0,
          drawing,
          next-count s.outline_refine_count s'.outline_refine_count count,
        ),
      )
