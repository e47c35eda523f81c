-- ===== src/Content/Graph/Delivers.antt =====
-- A run of the graph that returns without a failure has stored what its phase is for.
use content_chain.Prelude.{
  ℕ, zero, suc, ◌≡◌, refl, ap, ◌∙◌, Bool, true, false, Option, none, some, arith,
}
use content_chain.Shared.Exception.{Outcome, returned, thrown}
use content_chain.Content.Types.{
  ContentPipelinePhase, outline_phase, copy_phase, PageOutline, PageDocument, VerifierVerdict,
  ContentResults, ContentGraphState,
}
use content_chain.Content.Graph.{
  Services, Held, verify, as_failed, written, persist_drawn, persist_verified, persist_outline_node,
  persist_document_node, refine_document_node, refine_outline_node, fail_run_node,
  save_pipeline_state, load_context, normalize_brief, outline_agent, page_writer,
}
use content_chain.Content.Graph.Walk.{
  Node, fail_run, persist_document, persist_outline, refine_document, refine_outline, is_copy,
  is_ok, route_after_consistency_verifier, again, go_to, routed, run_from_verifier, drafted, invoke,
}
use content_chain.Content.Graph.Laws.{
  Returns, save-Returns, verify-Returns, refine_document-Counted, refine_outline-Counted,
}

module _ {C W : Type 0} (services : Services C W) where
  -- What the store holds of a state at its end: in the copy phase the document, with a verdict that
  -- is ok, and in the outline phase the outline.
  abbrev pub Stored : Bool → ContentGraphState C → ContentResults → Type 0
  Stored true s store =
      (d : PageDocument) × (v : VerifierVerdict) × (s.document ≡ some d)
      × (store.document ≡ some (d, v))
      × (v.ok ≡ true)
  Stored false s store = (o : PageOutline) × (s.outline ≡ some o) × (store.outline ≡ some o)

  abbrev pub DeliversIfAny : Bool → Option (Outcome (ContentGraphState C) × Held services) → Type 0
  DeliversIfAny copying none = Unit
  DeliversIfAny copying (some (thrown x, h)) = Unit
  DeliversIfAny copying (some (returned s, h)) = s.failed_code ≡ none → Stored copying s h.0

  abbrev Next : Type 0
  Next =
      ContentGraphState C → Held services → Option (Outcome (ContentGraphState C) × Held services)

  of_Returns :
      (copying : Bool) (r : Outcome (ContentGraphState C) × Held services)
      → Returns services r (λ s h. s.failed_code ≡ none → Stored copying s h.0)
      → DeliversIfAny copying (some r)
  of_Returns copying (thrown x, h) f = tt
  of_Returns copying (returned s, h) f = f s h refl

  written-Returns :
      (f : ContentResults → ContentResults) (s : ContentGraphState C) (o : Outcome (Unit {0}) × W)
      (store : ContentResults)
      → Returns services (written services f s o store) (λ s' h.
        (s' ≡ s) × (h.0.document ≡ (f store).document) × (h.0.outline ≡ (f store).outline))
  unfolding written
  written-Returns f s (thrown x, w) store s' h e = cc
  written-Returns f s (returned _, w) store s' h e = save-Returns services s (f store, w) s' h e

  fail_run-Delivers :
      (copying : Bool) (s : ContentGraphState C) (h : Held services)
      → DeliversIfAny copying (some (fail_run_node services s h))
  unfolding fail_run_node
  fail_run-Delivers copying s h = go (save_pipeline_state services s h)
    where
      go :
          (r : Outcome (ContentGraphState C) × Held services)
          → DeliversIfAny copying (some (as_failed services s r))
      go (thrown x, h') = tt
      go (returned _, h') = λ e. cc

  persist_drawn-Delivers :
      (o : Option PageOutline) (s : ContentGraphState C) (h : Held services)
      → s.outline ≡ o
      → DeliversIfAny false (some (persist_drawn services o s h))
  unfolding persist_drawn
  persist_drawn-Delivers none s h e = tt
  persist_drawn-Delivers (some o) s (store, w) e = of_Returns false _ λ s' h' e' unfailed.
      let (same, _, drawn) = written-Returns _ s (services.write w) store s' h' e' in
      (o, rw same e, drawn)

  persist_verified-Delivers :
      (d : Option PageDocument) (v : Option VerifierVerdict) (s : ContentGraphState C)
      (h : Held services)
      → s.document ≡ d
      → is_ok v ≡ true
      → DeliversIfAny true (some (persist_verified services d v s h))
  unfolding persist_verified
  persist_verified-Delivers none v s h e fine = tt
  persist_verified-Delivers (some d) none s h e fine = tt
  persist_verified-Delivers (some d) (some v) s (store, w) e fine =
      of_Returns true _ λ s' h' e' unfailed.
        let (same, document, _) = written-Returns _ s (services.write w) store s' h' e' in
        (d, v, rw same e, document, fine)

  again-Delivers :
      (copying : Bool) (k : Next) (r : Outcome (ContentGraphState C) × Held services)
      → Returns services r (λ s h. DeliversIfAny copying (k s h))
      → DeliversIfAny copying (again services k r)
  unfolding again
  again-Delivers copying k (returned s, h) f = f s h refl
  again-Delivers copying k (thrown x, h) f = tt

  -- What each route says of the state.
  abbrev Takes : Bool → ContentGraphState C → Node → Type 0
  Takes copying s fail_run = Unit
  Takes copying s persist_document = (copying ≡ true) × (is_ok s.verdict ≡ true)
  Takes copying s persist_outline = copying ≡ false
  Takes copying s refine_document = copying ≡ true
  Takes copying s refine_outline = copying ≡ false

  route-Takes :
      (copying : Bool) (s : ContentGraphState C) (n : Node)
      → is_copy s.phase ≡ copying
      → route_after_consistency_verifier s ≡ n
      → Takes copying s n
  unfolding route_after_consistency_verifier
  route-Takes copying s fail_run p e = tt
  route-Takes copying s persist_document p e = (ground arith, ground arith)
  route-Takes copying s persist_outline p e = ground arith
  route-Takes copying s refine_document p e = ground arith
  route-Takes copying s refine_outline p e = ground arith

  go_to-Delivers :
      (copying : Bool) (k : Next) (n : Node) (s : ContentGraphState C) (h : Held services)
      → is_copy s.phase ≡ copying
      → Takes copying s n
      → ((s' : ContentGraphState C) (h' : Held services)
          → is_copy s'.phase ≡ copying
          → DeliversIfAny copying (k s' h'))
      → DeliversIfAny copying (go_to services k n s h)
  unfolding go_to persist_outline_node persist_document_node
  go_to-Delivers copying k fail_run s h p takes f = fail_run-Delivers copying s h
  go_to-Delivers copying k persist_document s h p (mode, fine) f =
      rw mode (persist_verified-Delivers s.document s.verdict s h refl fine)
  go_to-Delivers copying k persist_outline s h p mode f =
      rw mode (persist_drawn-Delivers s.outline s h refl)
  go_to-Delivers copying k refine_document s h p mode f =
      again-Delivers copying k (refine_document_node services s h) λ s' h' e.
        let ((same, _, _, _), _) = refine_document-Counted services s h (p ∙ mode) s' h' e in
        f s' h' (ap is_copy same ∙ p)
  go_to-Delivers copying k refine_outline s h p mode f =
      again-Delivers copying k (refine_outline_node services s h) λ s' h' e.
        let ((same, _, _, _), _) = refine_outline-Counted services s h (p ∙ mode) s' h' e in
        f s' h' (ap is_copy same ∙ p)

  routed-Delivers :
      (copying : Bool) (k : Next) (r : Outcome (ContentGraphState C) × Held services)
      → Returns services r
          (λ s h. DeliversIfAny copying (go_to services k (route_after_consistency_verifier s) s h))
      → DeliversIfAny copying (routed services k r)
  unfolding routed
  routed-Delivers copying k (returned s, h) f = f s h refl
  routed-Delivers copying k (thrown x, h) f = tt

  run_from_verifier-Delivers :
      (copying : Bool) (fuel : ℕ) (s : ContentGraphState C) (h : Held services)
      → is_copy s.phase ≡ copying
      → DeliversIfAny copying (run_from_verifier services fuel s h)
  unfolding run_from_verifier
  run_from_verifier-Delivers copying zero s h p = tt
  run_from_verifier-Delivers copying (suc fuel) s h p =
      routed-Delivers copying (run_from_verifier services fuel) (verify services s h) λ s1 h1 e.
        let (_, same, _, _, _, _) = verify-Returns services s h s1 h1 e in
        let p1 : is_copy s1.phase ≡ copying = ap is_copy same ∙ p in
        go_to-Delivers copying (run_from_verifier services fuel)
          (route_after_consistency_verifier s1) s1 h1 p1 (route-Takes copying s1 _ p1 refl)
          (λ s2 h2 p2. run_from_verifier-Delivers copying fuel s2 h2 p2)

  abbrev KeepsPhase : ContentPipelinePhase → Outcome (ContentGraphState C) × Held services → Type 0
  KeepsPhase p r = Returns services r (λ s h. s.phase ≡ p)

  load_context-KeepsPhase :
      (s : ContentGraphState C) (h : Held services) → KeepsPhase s.phase (load_context services s h)
  unfolding load_context
  load_context-KeepsPhase s (store, w) s' h' e = ground arith

  drafted-KeepsPhase :
      (p : ContentPipelinePhase) (s : ContentGraphState C) (h : Held services)
      → KeepsPhase s.phase (drafted services p s h)
  unfolding drafted outline_agent page_writer
  drafted-KeepsPhase copy_phase s (store, w) s' h' e = ground arith
  drafted-KeepsPhase outline_phase s (store, w) s' h' e = ground arith

  -- On any fuel: when the graph returns a state with no failure, the store holds the result of the
  -- phase in which it was begun.
  pub invoke-Delivers :
      (fuel : ℕ) (s : ContentGraphState C) (h : Held services)
      → DeliversIfAny (is_copy s.phase) (invoke services fuel s h)
  unfolding invoke normalize_brief
  invoke-Delivers fuel s h =
      again-Delivers (is_copy s.phase) _ (load_context services s h) λ s1 h1 e.
        let p1 = load_context-KeepsPhase s h s1 h1 e in
        again-Delivers (is_copy s.phase) (run_from_verifier services fuel)
          (drafted services s1.phase (normalize_brief services s1) h1)
          λ s2 h2 e'.
            let p2 = drafted-KeepsPhase s1.phase (normalize_brief services s1) h1 s2 h2 e' in
            run_from_verifier-Delivers (is_copy s.phase) fuel s2 h2 (ap is_copy (p2 ∙ p1))
