-- ===== src/Social/Graph/Ends.antt =====
-- The loop of drafting, verifying and refining comes to an end.
use content_chain.Prelude.{
  ℕ, zero, suc, ◌+◌, ◌≤◌, min, ◌≡◌, refl, true, false, Option, some, arith, is_some,
}
use content_chain.Shared.Exception.{DomainException, returned, thrown}
use content_chain.Content.Types.{can_refine}
use content_chain.Content.Graph.Walk.{is_ok}
use content_chain.Social.Types.{SocialResults, SocialGraphState}
use content_chain.Social.Graph.{SocialServices, Shelf, SocialAnswer}
use content_chain.Social.Graph.Walk.{
  SocialNode, to_fail, to_persist_content, to_persist_ideas, to_refine_content, to_refine_ideas,
  is_content, route_after_verifier, Onward, onward, visit, from_verifier, invoke_graph,
}
use content_chain.Social.Graph.Steps.{
  refinements, Same, Quiet, load_context-Quiet, drafted_by-Quiet, verifier-Quiet,
  refine_ideas-Quiet, refine_content-Quiet,
}

module _ {C W : Type 0} (services : SocialServices C W) where
  pub onward_rule :
      (Goal : Option (SocialAnswer services) → Type 0) (k : Onward services) (more : ℕ)
      (s : SocialGraphState C) (store : SocialResults) (a : SocialAnswer services)
      → Quiet services more s store a
      → ((s' : SocialGraphState C) (h : Shelf services)
          → Same s s'
          → refinements s' ≡ refinements s + more
          → h.0 ≡ store
          → Goal (k s' h))
      → ((e : DomainException) (h : Shelf services) → h.0 ≡ store → Goal (some (thrown e, h)))
      → Goal (onward services k a)
  unfolding onward
  onward_rule Goal k more s store (thrown e, h) same f g = g e h same
  onward_rule Goal k more s store (returned s', h) (same, count, kept) f g = f s' h same count kept

  abbrev Some : Option (SocialAnswer services) → Type 0
  Some o = is_some o ≡ true

  -- What a route says of the state.
  abbrev pub Says : SocialGraphState C → SocialNode → Type 0
  Says s to_fail = Unit
  Says s to_persist_content = (is_content s.phase ≡ true) × (is_ok s.verdict ≡ true)
  Says s to_persist_ideas = is_content s.phase ≡ false
  Says s to_refine_content = (is_content s.phase ≡ true) × (refinements s + 1 ≤ 2)
  Says s to_refine_ideas = (is_content s.phase ≡ false) × (refinements s + 1 ≤ 2)

  pub route-Says : (s : SocialGraphState C) (n : SocialNode) → route_after_verifier s ≡ n → Says s n
  unfolding route_after_verifier can_refine
  route-Says s to_fail e = tt
  route-Says s to_persist_content e = (ground arith, ground arith)
  route-Says s to_persist_ideas e = ground arith
  route-Says s to_refine_content e = (ground arith, ground arith)
  route-Says s to_refine_ideas e = (ground arith, ground arith)

  visit-Some :
      (k : Onward services) (n : SocialNode) (s : SocialGraphState C) (h : Shelf services)
      → Says s n
      → (refinements s + 1 ≤ 2
          → (s' : SocialGraphState C) (h' : Shelf services) → refinements s' ≡ refinements s + 1
          → Some (k s' h'))
      → Some (visit services k n s h)
  unfolding visit
  visit-Some k to_fail s h says f = refl
  visit-Some k to_persist_content s h says f = refl
  visit-Some k to_persist_ideas s h says f = refl
  visit-Some k to_refine_content s h (p, few) f =
      onward_rule Some k 1 s h.0 _ (refine_content-Quiet services s h p)
        (λ s' h' same count kept. f few s' h' count) (λ e h' kept. refl)
  visit-Some k to_refine_ideas s h (p, few) f =
      onward_rule Some k 1 s h.0 _ (refine_ideas-Quiet services s h p)
        (λ s' h' same count kept. f few s' h' count) (λ e h' kept. refl)

  from_verifier-Some :
      (fuel : ℕ) (s : SocialGraphState C) (h : Shelf services)
      → 3 ≤ fuel + min 2 (refinements s)
      → Some (from_verifier services fuel s h)
  unfolding from_verifier
  from_verifier-Some zero s h enough = absurd (omega (arith, enough))
  from_verifier-Some (suc fuel) s h enough =
      onward_rule Some _ 0 s h.0 _ (verifier-Quiet services s h)
        (λ s1 h1 same count kept.
          visit-Some (from_verifier services fuel) _ s1 h1 (route-Says s1 _ refl) (λ few s2 h2 more.
            from_verifier-Some fuel s2 h2 (omega (arith, enough, count, few, more))))
        (λ e h1 kept. refl)

  -- Three verifications, which is what fuel 3 stands for, are enough.
  pub invoke_graph_ends :
      (s : SocialGraphState C) (h : Shelf services) → is_some (invoke_graph services 3 s h) ≡ true
  unfolding invoke_graph
  invoke_graph_ends s h =
      onward_rule Some _ 0 s h.0 _ (load_context-Quiet services s h)
        (λ s1 h1 same count kept.
          onward_rule Some _ 0 s1 h1.0 _ (drafted_by-Quiet services s1.phase s1 h1)
            (λ s2 h2 same' count' kept'. from_verifier-Some 3 s2 h2 (omega arith))
            (λ e h2 kept'. refl))
        (λ e h1 kept. refl)
