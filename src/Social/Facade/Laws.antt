-- ===== src/Social/Facade/Laws.antt =====
-- The second stage: one verified result for each selected idea, in the order of the selection.
use Prim.Native.String.{String}
use content_chain.Prelude.{
  ℕ, ◌≡◌, refl, ap, sym, subst, ◌∙◌, ◌⊎◌, inl, inr, Bool, true, List, [], ◌∷◌, ◌++◌, Option, none,
  some, is_some, Bool-cases,
}
use content_chain.Shared.Enums.{is_social_task_type}
use content_chain.Shared.Exception.{DomainException, Outcome, returned, thrown}
use content_chain.Runs.Record.{RunRow, is_social_platform}
use content_chain.Social.Types.{
  content_phase, SocialIdea, SocialContent, ReelIdea, ReelScript, SocialResults, SocialGraphState,
  is_reel_task_type, is_two_stage_social_task,
}
use content_chain.Social.Graph.{SocialServices, Shelf, SocialAnswer}
use content_chain.Social.Graph.Walk.{invoke_graph}
use content_chain.Social.Graph.Ends.{invoke_graph_ends}
use content_chain.Social.Graph.Delivers.{marks, OneMore, invoke_graph-OneMore}
use content_chain.Social.Facade.{
  SocialPipelineOutcome, social_completed, social_awaiting_hitl, social_failed, ended_with,
  social_to_outcome, SocialExtras, base_input, cleared, selects, Phased, unless_failed, after_hop,
  last_outcome, each_hop, after_clear, invoke_social_phase,
}

-- A verified result for each idea.
abbrev pub ok_marks : List ℕ → List (Option ℕ × Bool)
ok_marks [] = []
ok_marks (id ∷ ids) = (some id, true) ∷ ok_marks ids

append_empty : (xs : List (Option ℕ × Bool)) → xs ++ [] ≡ xs
append_empty [] = refl
append_empty (x ∷ xs) = rw (append_empty xs) refl

append_one :
    (xs : List (Option ℕ × Bool)) (m : Option ℕ × Bool) (ys : List (Option ℕ × Bool))
    → (xs ++ (m ∷ [])) ++ ys ≡ xs ++ m ∷ ys
append_one [] m ys = refl
append_one (x ∷ xs) m ys = rw (append_one xs m ys) refl

module _ {C W : Type 0} (services : SocialServices C W) (run : RunRow) (extras : SocialExtras)
    (reel : Bool) (kind : is_reel_task_type run.task_type ≡ reel)
    (two : is_two_stage_social_task run.task_type ≡ true) where
  abbrev Answers : Type 0
  Answers = Phased services run content_phase extras

  -- Results for some of the ideas, from the first on.
  abbrev pub Part : List (Option ℕ × Bool) → List ℕ → SocialResults → Type 0
  Part base ids store =
      (done : List ℕ) × (rest : List ℕ) × (ids ≡ done ++ rest)
      × (marks reel store ≡ base ++ ok_marks done)

  -- Completed with results for all of the ideas, or stopped with results for the first ones.
  abbrev pub Each :
      List (Option ℕ × Bool) → List ℕ → Phased services run content_phase extras → Type 0
  Each base ids none = ⊥
  Each base ids (some (thrown e, h)) = Part base ids h.0
  Each base ids (some (returned (social_failed _ _ _), h)) = Part base ids h.0
  Each base ids (some (returned (social_awaiting_hitl _ _), h)) = ⊥
  Each base ids (some (returned (social_completed _ _ _ _), h)) =
      marks reel h.0 ≡ base ++ ok_marks ids

  Part-shift :
      (base : List (Option ℕ × Bool)) (id : ℕ) (ids : List ℕ) (store : SocialResults)
      → Part (base ++ ((some id, true) ∷ [])) ids store
      → Part base (id ∷ ids) store
  Part-shift base id ids store (done, rest, e, m) = (
    id ∷ done,
    rest,
    ap (λ (l : List ℕ). id ∷ l) e,
    m ∙ append_one base (some id, true) (ok_marks done),
  )

  Each-shift :
      (base : List (Option ℕ × Bool)) (id : ℕ) (ids : List ℕ) (o : Answers)
      → Each (base ++ ((some id, true) ∷ [])) ids o
      → Each base (id ∷ ids) o
  Each-shift base id ids none e = e
  Each-shift base id ids (some (thrown x, h)) e = Part-shift base id ids h.0 e
  Each-shift base id ids (some (returned (social_failed _ _ _), h)) e = Part-shift base id ids h.0 e
  Each-shift base id ids (some (returned (social_awaiting_hitl _ _), h)) e = e
  Each-shift base id ids (some (returned (social_completed _ _ _ _), h)) e =
      e ∙ append_one base (some id, true) (ok_marks ids)

  none_done :
      (ids : List ℕ) (before after : SocialResults)
      → after ≡ before
      → Part (marks reel before) ids after
  none_done ids before after e =
      ([], ids, refl, ap (marks reel) e ∙ sym (append_empty (marks reel before)))

  returned_hop :
      (k : SocialPipelineOutcome → Shelf services → Answers) (s : SocialGraphState C)
      (code : Option String) (h : Shelf services) (id : ℕ) (ids : List ℕ) (before : SocialResults)
      → ((code ≡ none) × (marks reel h.0 ≡ marks reel before ++ ((some id, true) ∷ [])))
        ⊎ ((code ≡ some "VERIFIER_FAILED") × (h.0 ≡ before))
      → ((i : List SocialIdea) (c : Option SocialContent) (r : List ReelIdea)
            (q : Option ReelScript)
          → marks reel h.0 ≡ marks reel before ++ ((some id, true) ∷ [])
          → Each (marks reel h.0) ids (k (social_completed i c r q) h))
      → Each (marks reel before) (id ∷ ids) (
          unless_failed services run content_phase extras k
            (ended_with code run.task_type content_phase s)
            h)
  unfolding ended_with unless_failed
  returned_hop k s none h id ids before (inl (e, more)) f =
      Each-shift (marks reel before) id ids _ (
        subst
          (λ m. Each m ids (k (social_completed s.ideas s.content s.reel_ideas s.reel_script) h))
          more (f s.ideas s.content s.reel_ideas s.reel_script more))
  returned_hop k s none h id ids before (inr (e, same)) f = cc
  returned_hop k s (some code) h id ids before (inl (e, more)) f = cc
  returned_hop k s (some code) h id ids before (inr (e, same)) f =
      none_done (id ∷ ids) before h.0 same

  after_hop-Each :
      (k : SocialPipelineOutcome → Shelf services → Answers) (o : Option (SocialAnswer services))
      (id : ℕ) (ids : List ℕ) (before : SocialResults)
      → is_some o ≡ true
      → OneMore services reel id before o
      → ((h : Shelf services) (i : List SocialIdea) (c : Option SocialContent) (r : List ReelIdea)
            (q : Option ReelScript)
          → Each (marks reel h.0) ids (k (social_completed i c r q) h))
      → Each (marks reel before) (id ∷ ids) (after_hop services run content_phase extras k o)
  unfolding after_hop social_to_outcome
  after_hop-Each k none id ids before e one f = cc
  after_hop-Each k (some (thrown x, h)) id ids before e one f = none_done (id ∷ ids) before h.0 one
  after_hop-Each k (some (returned s, h)) id ids before e one f =
      returned_hop k s s.failed_code h id ids before one (λ i c r q more. f h i c r q)

  each_hop-Each :
      (ids : List ℕ) (i : List SocialIdea) (c : Option SocialContent) (r : List ReelIdea)
      (q : Option ReelScript) (h : Shelf services)
      → Each
          (marks reel h.0)
          ids
          (each_hop services run content_phase extras ids (some (social_completed i c r q)) h)
  unfolding each_hop last_outcome
  each_hop-Each [] i c r q h = sym (append_empty (marks reel h.0))
  each_hop-Each (id ∷ ids) i c r q (store, w) =
      let s = base_input run content_phase extras (some (id ∷ [])) in
      after_hop-Each (λ outcome. each_hop services run content_phase extras ids (some outcome))
        (invoke_graph services 3 s (store, w)) id ids store
        (invoke_graph_ends services s (store, w))
        (invoke_graph-OneMore services reel id store 3 s w (kind, two, refl, refl, refl))
        (λ h' i' c' r' q'. each_hop-Each ids i' c' r' q' h')

  -- The first hop, from a store without results.
  first_hop-Each :
      (id : ℕ) (ids : List ℕ) (h : Shelf services)
      → Each
          (marks reel h.0)
          (id ∷ ids)
          (each_hop services run content_phase extras (id ∷ ids) none h)
  unfolding each_hop
  first_hop-Each id ids (store, w) =
      let s = base_input run content_phase extras (some (id ∷ [])) in
      after_hop-Each (λ outcome. each_hop services run content_phase extras ids (some outcome))
        (invoke_graph services 3 s (store, w)) id ids store
        (invoke_graph_ends services s (store, w))
        (invoke_graph-OneMore services reel id store 3 s w (kind, two, refl, refl, refl))
        (λ h' i' c' r' q'. each_hop-Each ids i' c' r' q' h')

  marks-cleared : (store : SocialResults) → marks reel (cleared reel store) ≡ []
  marks-cleared store = elim (Bool-cases reel) [ inl e ↦ rw e refl | inr e ↦ rw e refl ]

  -- What the second stage ends with: an error at its first write, with the store as it was; or, from
  -- a store that was cleared, `Each`.
  abbrev pub Staged : SocialResults → List ℕ → Phased services run content_phase extras → Type 0
  Staged before ids o =
      ((e : DomainException) × (w : W) × (o ≡ some (thrown e, (before, w)))) ⊎ Each [] ids o

  after_clear-Staged :
      (store : SocialResults) (q : Outcome (Unit {0}) × W) (id : ℕ) (ids : List ℕ)
      → run.selected_idea_ids ≡ some (id ∷ ids)
      → Staged store (id ∷ ids) (after_clear services run content_phase extras store q)
  unfolding after_clear
  after_clear-Staged store (thrown e, w) id ids chosen = inl (e, w, refl)
  after_clear-Staged store (returned _, w) id ids chosen = inr (
      rw (chosen, kind)
        (subst
          (λ m.
            Each m (id ∷ ids)
              (each_hop services run content_phase extras (id ∷ ids) none (cleared reel store, w)))
          (marks-cleared store) (first_hop-Each id ids (cleared reel store, w))))

  -- For a run of two stages with a selection, on a social platform, the second stage comes to an end,
  -- whatever the services answer. If it completes, the stored results are one for each selected idea,
  -- in the order of the selection, each with a verdict that is ok, and nothing else. If it fails or
  -- throws, they are such results for the first of the ideas; or clearing the store threw, and it is
  -- as it was.
  pub invoke_social_phase-Staged :
      (store : SocialResults) (w : W) (id : ℕ) (ids : List ℕ)
      → is_social_task_type run.task_type ≡ true
      → is_social_platform run.platform ≡ true
      → run.selected_idea_ids ≡ some (id ∷ ids)
      → Staged store (id ∷ ids) (invoke_social_phase services run content_phase extras (store, w))
  unfolding invoke_social_phase
  invoke_social_phase-Staged store w id ids social platform chosen =
      let chooses : selects run.selected_idea_ids ≡ true = rw chosen refl in
      rw (social, platform, two, chooses)
        (after_clear-Staged store (services.write w) id ids chosen)
