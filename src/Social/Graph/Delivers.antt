-- ===== src/Social/Graph/Delivers.antt =====
-- A hop of the second stage stores one verified result for its idea, or nothing.
use content_chain.Prelude.{
  ℕ, zero, suc, ◌≡◌, refl, ◌∙◌, ◌⊎◌, inl, inr, Bool, true, false, List, [], ◌∷◌, ◌++◌, Option, none,
  some, arith, Bool-cases,
}
use content_chain.Shared.Exception.{Outcome, returned, thrown}
use content_chain.Content.Types.{VerifierVerdict}
use content_chain.Content.Graph.Walk.{is_ok}
use content_chain.Social.Types.{
  content_phase, SocialContent, ReelScript, SocialResults, SocialGraphState, is_reel_task_type,
  is_two_stage_social_task,
}
use content_chain.Social.Graph.{SocialServices, Shelf, SocialAnswer}
use content_chain.Social.Graph.Nodes.{
  after_write, put, add_post, add_script, persist_post, persist_script, persist_content_node,
  failed_node,
}
use content_chain.Social.Graph.Walk.{
  SocialNode, to_fail, to_persist_content, to_persist_ideas, to_refine_content, to_refine_ideas,
  Onward, visit, from_verifier, invoke_graph,
}
use content_chain.Social.Graph.Steps.{
  Same, load_context-Quiet, drafted_by-Quiet, verifier-Quiet, refine_content-Quiet,
}
use content_chain.Social.Graph.Ends.{onward_rule, Says, route-Says}

-- The stored results of the second stage: the idea of each, and whether its verdict was ok.
abbrev pub post_marks : List (SocialContent × VerifierVerdict) → List (Option ℕ × Bool)
post_marks [] = []
post_marks ((c, v) ∷ rest) = (c.source_idea_id, v.ok) ∷ post_marks rest

abbrev pub script_marks : List (ReelScript × VerifierVerdict) → List (Option ℕ × Bool)
script_marks [] = []
script_marks ((c, v) ∷ rest) = (c.source_idea_id, v.ok) ∷ script_marks rest

abbrev pub marks : Bool → SocialResults → List (Option ℕ × Bool)
marks true store = script_marks store.reel_scripts
marks false store = post_marks store.contents

post_marks-append :
    (xs : List (SocialContent × VerifierVerdict)) (c : SocialContent) (v : VerifierVerdict)
    → post_marks (xs ++ ((c, v) ∷ [])) ≡ post_marks xs ++ ((c.source_idea_id, v.ok) ∷ [])
post_marks-append [] c v = refl
post_marks-append ((d, u) ∷ xs) c v = rw (post_marks-append xs c v) refl

script_marks-append :
    (xs : List (ReelScript × VerifierVerdict)) (c : ReelScript) (v : VerifierVerdict)
    → script_marks (xs ++ ((c, v) ∷ [])) ≡ script_marks xs ++ ((c.source_idea_id, v.ok) ∷ [])
script_marks-append [] c v = refl
script_marks-append ((d, u) ∷ xs) c v = rw (script_marks-append xs c v) refl

-- The state of a hop for one idea, of a task of two stages.
abbrev pub Hop : {C : Type 0} → Bool → ℕ → SocialGraphState C → Type 0
Hop reel id s =
    (is_reel_task_type s.task_type ≡ reel)
    × (is_two_stage_social_task s.task_type ≡ true)
    × (s.selected_idea_ids ≡ some (id ∷ []))
    × (s.phase ≡ content_phase)
    × (s.failed_code ≡ none)

Hop-Same :
    {C : Type 0} (reel : Bool) (id : ℕ) (s s' : SocialGraphState C)
    → Hop reel id s
    → Same s s'
    → Hop reel id s'
Hop-Same reel id s s' (kind, two, chosen, phase, unfailed) (t, i, p, f) =
    (rw t kind, rw t two, i ∙ chosen, p ∙ phase, f ∙ unfailed)

module _ {C W : Type 0} (services : SocialServices C W) (reel : Bool) (id : ℕ)
    (before : SocialResults) where
  -- One more result, of this idea and with a verdict that is ok; or a failure, or an error, with the
  -- store as it was.
  abbrev pub OneMore : Option (SocialAnswer services) → Type 0
  OneMore none = Unit
  OneMore (some (thrown e, h)) = h.0 ≡ before
  OneMore (some (returned s, h)) =
      ((s.failed_code ≡ none) × (marks reel h.0 ≡ marks reel before ++ ((some id, true) ∷ [])))
      ⊎ ((s.failed_code ≡ some "VERIFIER_FAILED") × (h.0 ≡ before))

  after_write-OneMore :
      (f : SocialResults → SocialResults) (s : SocialGraphState C) (store : SocialResults)
      (q : Outcome (Unit {0}) × W)
      → store ≡ before
      → s.failed_code ≡ none
      → marks reel (f before) ≡ marks reel before ++ ((some id, true) ∷ [])
      → OneMore (some (after_write services f s store q))
  unfolding after_write
  after_write-OneMore f s store (thrown e, w) same unfailed more = same
  after_write-OneMore f s store (returned _, w) same unfailed more = inl (unfailed, rw same more)

  marks-add_post :
      (s : SocialGraphState C) (c : SocialContent) (v : VerifierVerdict)
      → Hop false id s
      → v.ok ≡ true
      → marks false (add_post s c v before) ≡ marks false before ++ ((some id, true) ∷ [])
  unfolding add_post put
  marks-add_post s c v (kind, two, chosen, phase, unfailed) fine =
      rw (two, chosen) (post_marks-append before.contents _ v ∙ rw fine refl)

  marks-add_script :
      (s : SocialGraphState C) (c : ReelScript) (v : VerifierVerdict)
      → Hop true id s
      → v.ok ≡ true
      → marks true (add_script s c v before) ≡ marks true before ++ ((some id, true) ∷ [])
  unfolding add_script put
  marks-add_script s c v (kind, two, chosen, phase, unfailed) fine =
      rw (two, chosen) (script_marks-append before.reel_scripts _ v ∙ rw fine refl)

  persist_post-OneMore :
      (s : SocialGraphState C) (c : Option SocialContent) (v : Option VerifierVerdict)
      (h : Shelf services)
      → reel ≡ false
      → Hop reel id s
      → is_ok v ≡ true
      → h.0 ≡ before
      → OneMore (some (persist_post services s c v h))
  unfolding persist_post
  persist_post-OneMore s none v h post hop fine same = same
  persist_post-OneMore s (some c) none h post hop fine same = same
  persist_post-OneMore s (some c) (some v) (store, w) post (kind, two, chosen, phase, unfailed) fine
        same =
      after_write-OneMore (add_post s c v) s store (services.write w) same unfailed
        (rw post (marks-add_post s c v (kind ∙ post, two, chosen, phase, unfailed) fine))

  persist_script-OneMore :
      (s : SocialGraphState C) (c : Option ReelScript) (v : Option VerifierVerdict)
      (h : Shelf services)
      → reel ≡ true
      → Hop reel id s
      → is_ok v ≡ true
      → h.0 ≡ before
      → OneMore (some (persist_script services s c v h))
  unfolding persist_script
  persist_script-OneMore s none v h is_reel hop fine same = same
  persist_script-OneMore s (some c) none h is_reel hop fine same = same
  persist_script-OneMore s (some c) (some v) (store, w) is_reel (kind, two, chosen, phase, unfailed)
        fine same =
      after_write-OneMore (add_script s c v) s store (services.write w) same unfailed
        (rw is_reel (marks-add_script s c v (kind ∙ is_reel, two, chosen, phase, unfailed) fine))

  persist_content-OneMore :
      (s : SocialGraphState C) (h : Shelf services)
      → Hop reel id s
      → is_ok s.verdict ≡ true
      → h.0 ≡ before
      → OneMore (some (persist_content_node services s h))
  unfolding persist_content_node
  persist_content-OneMore s h hop fine same = elim (Bool-cases reel) [
    | inl is_reel ↦
        let kind : is_reel_task_type s.task_type ≡ true = hop.0 ∙ is_reel in
        rw kind (persist_script-OneMore s s.reel_script s.verdict h is_reel hop fine same)
    | inr post ↦
        let kind : is_reel_task_type s.task_type ≡ false = hop.0 ∙ post in
        rw kind (persist_post-OneMore s s.content s.verdict h post hop fine same)
  ]

  visit-OneMore :
      (k : Onward services) (n : SocialNode) (s : SocialGraphState C) (h : Shelf services)
      → Says services s n
      → Hop reel id s
      → h.0 ≡ before
      → ((s' : SocialGraphState C) (h' : Shelf services)
          → Hop reel id s'
          → h'.0 ≡ before
          → OneMore (k s' h'))
      → OneMore (visit services k n s h)
  unfolding visit failed_node
  visit-OneMore k to_fail s h says hop same f = inr (refl, same)
  visit-OneMore k to_persist_content s h (p, fine) hop same f =
      persist_content-OneMore s h hop fine same
  visit-OneMore k to_persist_ideas s h says (kind, two, chosen, phase, unfailed) same f =
      absurd (ground (arith, says, phase))
  visit-OneMore k to_refine_content s h (p, few) hop same f =
      onward_rule services OneMore k 1 s h.0 _ (refine_content-Quiet services s h p)
        (λ s' h' alike count kept. f s' h' (Hop-Same reel id s s' hop alike) (kept ∙ same))
        (λ e h' kept. kept ∙ same)
  visit-OneMore k to_refine_ideas s h (p, few) (kind, two, chosen, phase, unfailed) same f =
      absurd (ground (arith, p, phase))

  from_verifier-OneMore :
      (fuel : ℕ) (s : SocialGraphState C) (h : Shelf services)
      → Hop reel id s
      → h.0 ≡ before
      → OneMore (from_verifier services fuel s h)
  unfolding from_verifier
  from_verifier-OneMore zero s h hop same = tt
  from_verifier-OneMore (suc fuel) s h hop same =
      onward_rule services OneMore _ 0 s h.0 _ (verifier-Quiet services s h)
        (λ s1 h1 alike count kept.
          visit-OneMore (from_verifier services fuel) _ s1 h1 (route-Says services s1 _ refl)
            (Hop-Same reel id s s1 hop alike) (kept ∙ same)
            (λ s2 h2 hop2 same2. from_verifier-OneMore fuel s2 h2 hop2 same2))
        (λ e h1 kept. kept ∙ same)

  -- Whatever the services answer, a hop for one idea that returns with no failure has stored one
  -- result more, after the others, which names that idea and has a verdict that is ok; one that fails
  -- or throws has stored nothing.
  pub invoke_graph-OneMore :
      (fuel : ℕ) (s : SocialGraphState C) (w : W)
      → Hop reel id s
      → OneMore (invoke_graph services fuel s (before, w))
  unfolding invoke_graph
  invoke_graph-OneMore fuel s w hop =
      onward_rule services OneMore _ 0 s before _ (load_context-Quiet services s (before, w))
        (λ s1 h1 alike count kept.
          onward_rule services OneMore _ 0 s1 h1.0 _ (drafted_by-Quiet services s1.phase s1 h1)
            (λ s2 h2 alike' count' kept'.
              from_verifier-OneMore fuel s2 h2
                (Hop-Same reel id s1 s2 (Hop-Same reel id s s1 hop alike) alike') (kept' ∙ kept))
            (λ e h2 kept'. kept' ∙ kept))
        (λ e h1 kept. kept)
