-- ===== src/Social/Graph/Steps.antt =====
-- What each node of the graph before the end leaves as it is.
use content_chain.Prelude.{
  ℕ, ◌+◌, ◌≡◌, refl, ◌∙◌, Bool, true, false, ◌||◌, not, arith, if◌then◌else◌, Bool-cases, inl, inr,
}
use content_chain.Shared.Exception.{Outcome, returned, thrown}
use content_chain.Content.Types.{VerifierVerdict, can_refine, next_refine_count}
use content_chain.Social.Types.{
  SocialPhase, ideas_phase, content_phase, SocialIdea, ReelIdea, SocialResults, SocialGraphState,
  is_reel_task_type, coerce_pass_note_verdict,
}
use content_chain.Social.Graph.{
  SocialServices, Shelf, SocialAnswer, Shown, with_answer, with_count, load_context_node,
  ideation_node, content_writer_node, normalize_brief_node, post_written, script_written,
}
use content_chain.Social.Graph.Nodes.{
  after_write, with_verdict, judged_by, verifier_node, refine_ideas_node, refine_content_node,
}
use content_chain.Social.Graph.Walk.{is_content, drafted_by}

abbrev pub refinements : {C : Type 0} → SocialGraphState C → ℕ
refinements s = if is_content s.phase then s.content_refine_count else s.ideas_refine_count

-- The task, the selection, the phase and the failure are the same.
abbrev pub Same : {C : Type 0} → SocialGraphState C → SocialGraphState C → Type 0
Same s s' =
    (s'.task_type ≡ s.task_type)
    × (s'.selected_idea_ids ≡ s.selected_idea_ids)
    × (s'.phase ≡ s.phase)
    × (s'.failed_code ≡ s.failed_code)

next_count : (n m : ℕ) → next_refine_count n ≡ returned m → m ≡ n + 1
unfolding next_refine_count can_refine
next_count n m e = ground arith

module _ {C W : Type 0} (services : SocialServices C W) where
  -- A node that leaves the store alone, whether it returns or throws; one that returns counts
  -- `more` refinements.
  abbrev pub Quiet : ℕ → SocialGraphState C → SocialResults → SocialAnswer services → Type 0
  Quiet more s store (thrown e, h) = h.0 ≡ store
  Quiet more s store (returned s', h) =
      Same s s' × (refinements s' ≡ refinements s + more) × (h.0 ≡ store)

  with_answer-Quiet :
      {A : Type 0} (f : A → SocialGraphState C) (s : SocialGraphState C) (store : SocialResults)
      (q : Outcome A × W)
      → ((a : A) → Same s (f a) × (refinements (f a) ≡ refinements s + 0))
      → Quiet 0 s store (with_answer services f store q)
  unfolding with_answer
  with_answer-Quiet f s store (thrown e, w) k = refl
  with_answer-Quiet f s store (returned a, w) k = let (same, count) = k a in (same, count, refl)

  with_count-Quiet :
      {A : Type 0} (f : A → ℕ → SocialGraphState C) (s : SocialGraphState C) (store : SocialResults)
      (count : Outcome ℕ) (q : Outcome A × W)
      → next_refine_count (refinements s) ≡ count
      → ((a : A) (n : ℕ) → Same s (f a n) × (refinements (f a n) ≡ n))
      → Quiet 1 s store (with_count services f store count q)
  unfolding with_count
  with_count-Quiet f s store count (thrown e, w) c k = refl
  with_count-Quiet f s store (thrown e) (returned a, w) c k = refl
  with_count-Quiet f s store (returned n) (returned a, w) c k =
      let (same, counts) = k a n in (same, counts ∙ next_count (refinements s) n c, refl)

  pub load_context-Quiet :
      (s : SocialGraphState C) (h : Shelf services) → Quiet 0 s h.0 (load_context_node services s h)
  unfolding load_context_node
  load_context-Quiet s (store, w) =
      with_answer-Quiet _ s store _ λ a. ((refl, refl, refl, refl), omega arith)

  ideation-Quiet :
      (s : SocialGraphState C) (h : Shelf services) → Quiet 0 s h.0 (ideation_node services s h)
  unfolding ideation_node
  ideation-Quiet s (store, w) = elim (Bool-cases (is_reel_task_type s.task_type)) [
    | inl reel ↦
        rw reel (with_answer-Quiet _ s store _ λ a. ((refl, refl, refl, refl), omega arith))
    | inr post ↦
        rw post (with_answer-Quiet _ s store _ λ a. ((refl, refl, refl, refl), omega arith))
  ]

  post_written-Quiet :
      (s : SocialGraphState C) (o : Outcome (Shown SocialIdea)) (h : Shelf services)
      → Quiet 0 s h.0 (post_written services s o h)
  unfolding post_written
  post_written-Quiet s (thrown e) h = refl
  post_written-Quiet s (returned given) (store, w) =
      with_answer-Quiet _ s store _ λ a. ((refl, refl, refl, refl), omega arith)

  script_written-Quiet :
      (s : SocialGraphState C) (o : Outcome (Shown ReelIdea)) (h : Shelf services)
      → Quiet 0 s h.0 (script_written services s o h)
  unfolding script_written
  script_written-Quiet s (thrown e) h = refl
  script_written-Quiet s (returned given) (store, w) =
      with_answer-Quiet _ s store _ λ a. ((refl, refl, refl, refl), omega arith)

  content_writer-Quiet :
      (s : SocialGraphState C) (h : Shelf services)
      → Quiet 0 s h.0 (content_writer_node services s h)
  unfolding content_writer_node
  content_writer-Quiet s h = elim (Bool-cases (is_reel_task_type s.task_type)) [
    | inl reel ↦ rw reel (script_written-Quiet s _ h)
    | inr post ↦ rw post (post_written-Quiet s _ h)
  ]

  pub drafted_by-Quiet :
      (p : SocialPhase) (s : SocialGraphState C) (h : Shelf services)
      → Quiet 0 s h.0 (drafted_by services p (normalize_brief_node services s) h)
  unfolding drafted_by normalize_brief_node
  drafted_by-Quiet content_phase s h = content_writer-Quiet (normalize_brief_node services s) h
  drafted_by-Quiet ideas_phase s h = ideation-Quiet (normalize_brief_node services s) h

  after_write-Quiet :
      (s s' : SocialGraphState C) (store : SocialResults) (q : Outcome (Unit {0}) × W)
      → Same s s' × (refinements s' ≡ refinements s + 0)
      → Quiet 0 s store (after_write services (λ r. r) s' store q)
  unfolding after_write
  after_write-Quiet s s' store (thrown e, w) k = refl
  after_write-Quiet s s' store (returned _, w) (same, count) = (same, count, refl)

  with_verdict-Quiet :
      (s : SocialGraphState C) (store : SocialResults) (v : VerifierVerdict) (coerced : Bool)
      (w : W)
      → Quiet 0 s store (with_verdict services s store (v, coerced) w)
  unfolding with_verdict
  with_verdict-Quiet s store v coerced w = elim (Bool-cases (coerced || not v.ok)) [
    | inl logs ↦ rw logs (after_write-Quiet s _ store _ ((refl, refl, refl, refl), omega arith))
    | inr quiet ↦ rw quiet ((refl, refl, refl, refl), omega arith, refl)
  ]

  pub verifier-Quiet :
      (s : SocialGraphState C) (h : Shelf services) → Quiet 0 s h.0 (verifier_node services s h)
  unfolding verifier_node judged_by
  verifier-Quiet s (store, w) = go (services.verifier s w)
    where
      go : (q : Outcome VerifierVerdict × W) → Quiet 0 s store (judged_by services s store q)
      go (thrown e, w') = refl
      go (returned v, w') =
          let (v', coerced) = coerce_pass_note_verdict services.tests v in
          with_verdict-Quiet s store v' coerced w'

  pub refine_ideas-Quiet :
      (s : SocialGraphState C) (h : Shelf services)
      → is_content s.phase ≡ false
      → Quiet 1 s h.0 (refine_ideas_node services s h)
  unfolding refine_ideas_node
  refine_ideas-Quiet s (store, w) p = elim (Bool-cases (is_reel_task_type s.task_type)) [
    | inl reel ↦
        rw reel
          (with_count-Quiet _ s store _ _ (rw p refl) λ a n. ((refl, refl, refl, refl), rw p refl))
    | inr post ↦
        rw post
          (with_count-Quiet _ s store _ _ (rw p refl) λ a n. ((refl, refl, refl, refl), rw p refl))
  ]

  pub refine_content-Quiet :
      (s : SocialGraphState C) (h : Shelf services)
      → is_content s.phase ≡ true
      → Quiet 1 s h.0 (refine_content_node services s h)
  unfolding refine_content_node
  refine_content-Quiet s (store, w) p = elim (Bool-cases (is_reel_task_type s.task_type)) [
    | inl reel ↦
        rw reel
          (with_count-Quiet _ s store _ _ (rw p refl) λ a n. ((refl, refl, refl, refl), rw p refl))
    | inr post ↦
        rw post
          (with_count-Quiet _ s store _ _ (rw p refl) λ a n. ((refl, refl, refl, refl), rw p refl))
  ]
