-- ===== src/Content/Graph/Ends.antt =====
-- The loop of drafting, verifying and refining comes to an end, and stores only what was verified.
use content_chain.Prelude.{
  ℕ, zero, suc, ◌+◌, ◌≤◌, min, ◌≡◌, refl, true, false, Option, arith, is_some,
}
use content_chain.Shared.Exception.{Outcome, returned, thrown}
use content_chain.Content.Types.{ContentGraphState, can_refine}
use content_chain.Content.Graph.{
  Services, Held, verify, refine_document_node, refine_outline_node, load_context,
}
use content_chain.Content.Graph.Walk.{
  Node, fail_run, persist_document, persist_outline, refine_document, refine_outline, is_copy,
  route_after_consistency_verifier, again, go_to, routed, run_from_verifier, invoke,
}
use content_chain.Content.Graph.Laws.{
  attempts, Returns, verify-Returns, refine_document-Counted, refine_outline-Counted,
}

module _ {C W : Type 0} (services : Services C W) where
  abbrev Result : Type 0
  Result = Outcome (ContentGraphState C) × Held services

  abbrev Next : Type 0
  Next = ContentGraphState C → Held services → Option Result

  -- The routes that lead back, and when they are taken.
  route_refines :
      (s : ContentGraphState C) (n : Node)
      → route_after_consistency_verifier s ≡ n
      → ((n ≡ refine_document) → (is_copy s.phase ≡ true) × (attempts s + 1 ≤ 2))
        × ((n ≡ refine_outline) → (is_copy s.phase ≡ false) × (attempts s + 1 ≤ 2))
  unfolding route_after_consistency_verifier can_refine
  route_refines s n e = (λ h. (ground arith, ground arith), λ h. (ground arith, ground arith))

  again_some :
      (k : Next) (r : Result)
      → Returns services r (λ s h. is_some (k s h) ≡ true)
      → is_some (again services k r) ≡ true
  unfolding again
  again_some k (returned s, h) f = f s h refl
  again_some k (thrown x, h) f = refl

  routed_some :
      (k : Next) (r : Result)
      → Returns services r
          (λ s h. is_some (go_to services k (route_after_consistency_verifier s) s h) ≡ true)
      → is_some (routed services k r) ≡ true
  unfolding routed
  routed_some k (returned s, h) f = f s h refl
  routed_some k (thrown x, h) f = refl

  go_to_some :
      (k : Next) (n : Node) (s : ContentGraphState C) (h : Held services)
      → route_after_consistency_verifier s ≡ n
      → (attempts s + 1 ≤ 2
          → (s' : ContentGraphState C) (h' : Held services) → attempts s' ≡ attempts s + 1
          → is_some (k s' h') ≡ true)
      → is_some (go_to services k n s h) ≡ true
  unfolding go_to
  go_to_some k fail_run s h e f = refl
  go_to_some k persist_document s h e f = refl
  go_to_some k persist_outline s h e f = refl
  go_to_some k refine_document s h e f =
      let (copying, few) = (route_refines s refine_document e).0 refl in
      again_some k (refine_document_node services s h)
        (λ s' h' g. f few s' h' (refine_document-Counted services s h copying s' h' g).1)
  go_to_some k refine_outline s h e f =
      let (drawing, few) = (route_refines s refine_outline e).1 refl in
      again_some k (refine_outline_node services s h)
        (λ s' h' g. f few s' h' (refine_outline-Counted services s h drawing s' h' g).1)

  run_from_verifier_some :
      (fuel : ℕ) (s : ContentGraphState C) (h : Held services)
      → 3 ≤ fuel + min 2 (attempts s)
      → is_some (run_from_verifier services fuel s h) ≡ true
  unfolding run_from_verifier
  run_from_verifier_some zero s h enough = absurd (omega (arith, enough))
  run_from_verifier_some (suc fuel) s h enough =
      routed_some (run_from_verifier services fuel) (verify services s h) λ s1 h1 e.
        let (same, _, _, _, _, _) = verify-Returns services s h s1 h1 e in
        go_to_some (run_from_verifier services fuel) (route_after_consistency_verifier s1) s1 h1
          refl
          (λ few s2 h2 more.
            run_from_verifier_some fuel s2 h2 (omega (arith, enough, same, few, more)))

  -- The graph comes to an end: three verifications, which is what fuel 3 stands for, are enough for
  -- every state, whatever the services answer.
  pub invoke_ends :
      (s : ContentGraphState C) (h : Held services) → is_some (invoke services 3 s h) ≡ true
  unfolding invoke
  invoke_ends s h = again_some _ (load_context services s h) λ s1 h1 e.
      again_some (run_from_verifier services 3) _
        λ s2 h2 e'. run_from_verifier_some 3 s2 h2 (omega arith)
