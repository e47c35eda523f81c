-- ===== src/Content/Graph/Loop.antt =====
-- The loop of drafting, verifying and refining, from its start to its end.
use content_chain.Prelude.{
  ℕ, zero, suc, ◌+◌, ◌≤◌, ◌≡◌, refl, subst, ap, ◌∙◌, inl, inr, true, false, Option, none, some,
  arith,
}
use content_chain.Shared.Exception.{Outcome, returned, thrown}
use content_chain.Content.Types.{
  ContentPipelinePhase, outline_phase, copy_phase, ContentResults, ContentGraphState, can_refine,
}
use content_chain.Content.Graph.{
  Services, Held, verify, persist_outline_node, persist_document_node, refine_document_node,
  refine_outline_node, load_context, normalize_brief, outline_agent, page_writer,
}
use content_chain.Content.Graph.Walk.{
  Node, fail_run, persist_document, persist_outline, refine_document, refine_outline, is_copy,
  is_ok, route_after_consistency_verifier, go_to, routed, run_from_verifier, drafted, invoke,
}
use content_chain.Content.Graph.Laws.{
  attempts, Returns, verify-Returns, refine_document-Counted, refine_outline-Counted,
}
use content_chain.Content.Graph.Stores.{
  Verified, Ended, Final, FinalIfAny, Next, Open, Throws, fail_run-Final, persist_drawn-Final,
  persist_verified-Final, again-Final, verify-Throws, refine_document-Throws, refine_outline-Throws,
}

module _ {C W : Type 0} (services : Services C W) where
  -- The same results stand in the store.
  abbrev Kept : ContentResults → ContentResults → Type 0
  Kept before mid = (mid.document ≡ before.document) × (mid.outline ≡ before.outline)

  Verified-rebase :
      (before mid after : ContentResults)
      → mid.document ≡ before.document
      → Verified mid after
      → Verified before after
  Verified-rebase before mid after e (inl same) = inl (same ∙ e)
  Verified-rebase before mid after e (inr stored) = inr stored

  Final-rebase :
      (before mid : ContentResults) (o : Option (Outcome (ContentGraphState C) × Held services))
      → Kept before mid
      → FinalIfAny services mid o
      → FinalIfAny services before o
  Final-rebase before mid none kept f = tt
  Final-rebase before mid (some (thrown x, h)) (d, o) f = Verified-rebase before mid h.0 d f
  Final-rebase before mid (some (returned s, h)) (d, o) (f, inl passed) =
      (Verified-rebase before mid h.0 d f, inl passed)
  Final-rebase before mid (some (returned s, h)) (d, o) (f, inr (code, two, same, same')) =
      (Verified-rebase before mid h.0 d f, inr (code, two, same ∙ d, same' ∙ o))

  -- What each route says of the state.
  abbrev Says : ContentGraphState C → Node → Type 0
  Says s fail_run = attempts s ≡ 2
  Says s persist_document = is_ok s.verdict ≡ true
  Says s persist_outline = is_ok s.verdict ≡ true
  Says s refine_document = (is_copy s.phase ≡ true) × (attempts s + 1 ≤ 2)
  Says s refine_outline = (is_copy s.phase ≡ false) × (attempts s + 1 ≤ 2)

  route-Says :
      (s : ContentGraphState C) (n : Node)
      → Open services s
      → route_after_consistency_verifier s ≡ n
      → Says s n
  unfolding route_after_consistency_verifier can_refine
  route-Says s fail_run (unfailed, most) e = ground arith
  route-Says s persist_document (unfailed, most) e = ground arith
  route-Says s persist_outline (unfailed, most) e = ground arith
  route-Says s refine_document (unfailed, most) e = (ground arith, ground arith)
  route-Says s refine_outline (unfailed, most) e = (ground arith, ground arith)

  go_to-Final :
      (k : Next services) (n : Node) (s : ContentGraphState C) (h : Held services)
      → Open services s
      → Says s n
      → ((s' : ContentGraphState C) (h' : Held services)
          → Open services s'
          → FinalIfAny services h'.0 (k s' h'))
      → FinalIfAny services h.0 (go_to services k n s h)
  unfolding go_to persist_outline_node persist_document_node
  go_to-Final k fail_run s h open_state two f = fail_run-Final services s h two
  go_to-Final k persist_document s h (unfailed, _) fine f =
      persist_verified-Final services s.document s.verdict s h refl unfailed fine
  go_to-Final k persist_outline s h (unfailed, _) fine f =
      persist_drawn-Final services s.outline s h unfailed fine
  go_to-Final k refine_document s h (unfailed, _) (copying, few) f =
      again-Final services k h.0 (refine_document_node services s h)
        (λ x h' e. inl (ap (λ r. r.document) (refine_document-Throws services s h x h' e)))
        (λ s' h' e.
          let ((_, code, d, o), more) = refine_document-Counted services s h copying s' h' e in
          Final-rebase h.0 h'.0 _ (d, o) (f s' h' (code ∙ unfailed, omega (arith, few, more))))
  go_to-Final k refine_outline s h (unfailed, _) (drawing, few) f =
      again-Final services k h.0 (refine_outline_node services s h)
        (λ x h' e. inl (ap (λ r. r.document) (refine_outline-Throws services s h x h' e)))
        (λ s' h' e.
          let ((_, code, d, o), more) = refine_outline-Counted services s h drawing s' h' e in
          Final-rebase h.0 h'.0 _ (d, o) (f s' h' (code ∙ unfailed, omega (arith, few, more))))

  routed-Final :
      (k : Next services) (before : ContentResults)
      (r : Outcome (ContentGraphState C) × Held services)
      → Throws services r before
      → Returns services r (λ s h.
        FinalIfAny services before (go_to services k (route_after_consistency_verifier s) s h))
      → FinalIfAny services before (routed services k r)
  unfolding routed
  routed-Final k before (returned s, h) stays f = f s h refl
  routed-Final k before (thrown x, h) stays f = inl (ap (λ r. r.document) (stays x h refl))

  run_from_verifier-Final :
      (fuel : ℕ) (s : ContentGraphState C) (h : Held services)
      → (s.failed_code ≡ none) × (attempts s ≤ 2)
      → FinalIfAny services h.0 (run_from_verifier services fuel s h)
  unfolding run_from_verifier
  run_from_verifier-Final zero s h open_state = tt
  run_from_verifier-Final (suc fuel) s h (unfailed, most) =
      routed-Final (run_from_verifier services fuel) h.0 (verify services s h)
        (verify-Throws services s h)
        λ s1 h1 e.
          let (same, _, _, _, code, kept) = verify-Returns services s h s1 h1 e in
          let open_state : Open services s1 = (code ∙ unfailed, omega (arith, same, most)) in
          Final-rebase h.0 h1.0 _ (ap (λ r. r.document) kept, ap (λ r. r.outline) kept)
            (go_to-Final (run_from_verifier services fuel) (route_after_consistency_verifier s1) s1
              h1 open_state (route-Says s1 _ open_state refl)
              (λ s2 h2 o. run_from_verifier-Final fuel s2 h2 o))

  -- A node before the verifier leaves the store, the phase, the counts and the failure as they are.
  abbrev Leaves :
      ContentGraphState C → ContentResults → ContentGraphState C → Held services → Type 0
  Leaves s before s' h' =
      (attempts s' ≡ attempts s) × (s'.failed_code ≡ s.failed_code) × (h'.0 ≡ before)

  load_context-Leaves :
      (s : ContentGraphState C) (h : Held services)
      → Returns services (load_context services s h) (Leaves s h.0)
        × Throws services (load_context services s h) h.0
  unfolding load_context
  load_context-Leaves s (store, w) =
      (λ s' h' e. (ground arith, ground arith, ground arith), λ x h' e. ground arith)

  drafted-Leaves :
      (p : ContentPipelinePhase) (s : ContentGraphState C) (h : Held services)
      → Returns services (drafted services p s h) (Leaves s h.0)
        × Throws services (drafted services p s h) h.0
  unfolding drafted outline_agent page_writer
  drafted-Leaves copy_phase s (store, w) =
      (λ s' h' e. (ground arith, ground arith, ground arith), λ x h' e. ground arith)
  drafted-Leaves outline_phase s (store, w) =
      (λ s' h' e. (ground arith, ground arith, ground arith), λ x h' e. ground arith)

  invoke-Final :
      (fuel : ℕ) (s : ContentGraphState C) (h : Held services)
      → s.failed_code ≡ none
      → attempts s ≤ 2
      → FinalIfAny services h.0 (invoke services fuel s h)
  unfolding invoke normalize_brief
  invoke-Final fuel s h unfailed most =
      let (leaves, stays) = load_context-Leaves s h in
      again-Final services _ h.0 (load_context services s h)
        (λ x h1 e. inl (ap (λ r. r.document) (stays x h1 e)))
        λ s1 h1 e.
          let (same, code, kept) = leaves s1 h1 e in
          let (leaves', stays') = drafted-Leaves s1.phase (normalize_brief services s1) h1 in
          again-Final services (run_from_verifier services fuel) h.0
            (drafted services s1.phase (normalize_brief services s1) h1)
            (λ x h2 e'. inl (ap (λ r. r.document) (stays' x h2 e' ∙ kept)))
            λ s2 h2 e'.
              let (same', code', kept') = leaves' s2 h2 e' in
              Final-rebase h.0 h2.0 _
                (ap (λ r. r.document) (kept' ∙ kept), ap (λ r. r.outline) (kept' ∙ kept))
                (run_from_verifier-Final fuel s2 h2
                  (code' ∙ code ∙ unfailed, omega (arith, same, same', most)))

  Final-parts :
      (before : ContentResults) (o : Outcome (ContentGraphState C)) (h : Held services)
      → Final services before (o, h)
      → Verified before h.0 × ((s : ContentGraphState C) → o ≡ returned s → Ended before s h.0)
  Final-parts before (thrown x) h f = (f, λ s e. cc)
  Final-parts before (returned s') h (f, ends) =
      (f, λ s e. let same : s' ≡ s = ground arith in subst (λ q. Ended before q h.0) same ends)

  -- The graph, begun with no failure and at most two refinements counted in its phase, on any fuel:
  -- when it ends, the stored document is the one before, or has a verdict that is ok. If it returns
  -- a state, then the last verdict is ok, or the run has failed after two refinements and the stored
  -- results are those before.
  pub invoke-Verified :
      (fuel : ℕ) (s : ContentGraphState C) (h : Held services) (o : Outcome (ContentGraphState C))
      (h' : Held services)
      → s.failed_code ≡ none
      → attempts s ≤ 2
      → invoke services fuel s h ≡ some (o, h')
      → Verified h.0 h'.0 × ((s' : ContentGraphState C) → o ≡ returned s' → Ended h.0 s' h'.0)
  invoke-Verified fuel s h o h' unfailed most e =
      Final-parts h.0 o h' (subst (FinalIfAny services h.0) e (invoke-Final fuel s h unfailed most))
