-- ===== src/Social/Executor/Laws.antt =====
-- Where the second stage of a social run ends.
use Prim.Native.String.{String}
use content_chain.Prelude.{
  ℕ, ◌≡◌, refl, subst, ◌⊎◌, inl, inr, Bool, true, List, [], ◌∷◌, Option, none, some, arith,
  Bool-cases, is_some,
}
use content_chain.Shared.Enums.{RunStatus, running, completed, failed, is_social_task_type}
use content_chain.Shared.Exception.{DomainException, is_abort_error, Outcome, returned, thrown}
use content_chain.Runs.Status.{can_transition}
use content_chain.Runs.Record.{RunRow, is_social_platform}
use content_chain.Runs.Prisma.{PrismaClient}
use content_chain.Runs.Rows.{row}
use content_chain.Runs.World.{World, RunLogEntry}
use content_chain.Runs.Lifecycle.{TransitionExtras}
use content_chain.Runs.Executor.{Job, move, caught, guarded}
use content_chain.Runs.Executor.Laws.{
  Wrote, Settled, Stopped, unsynced-Wrote, synced-Wrote, guarded_settles, caught_ends,
}
use content_chain.Social.Types.{
  content_phase, SocialResults, is_reel_task_type, is_two_stage_social_task,
}
use content_chain.Social.Graph.{SocialServices, Shelf}
use content_chain.Social.Graph.Delivers.{marks}
use content_chain.Social.Facade.{
  social_completed, social_awaiting_hitl, social_failed, Phased, selects, invoke_social_phase,
}
use content_chain.Social.Facade.Laws.{ok_marks, Part, Staged, invoke_social_phase-Staged}
use content_chain.Social.Executor.{
  with_social_pipeline, social_synced, resolve_social_phase, awaited_ids, extras_of, with_phase,
  finish_social, social_answered, social_answered_if, social_launched, social_begun, execute_social,
}

module _ {C W : Type 0} (db : PrismaClient) (services : SocialServices C W) (signal : W → Bool)
    (message : DomainException → String) (number_text : ℕ → String) (now : ℕ) (run r : RunRow)
    (store : SocialResults) (w : W) (world : World) (stands : row run.id world.table ≡ some r)
    (claimed : run.status ≡ running) (reel : Bool) (kind : is_reel_task_type run.task_type ≡ reel)
    (two : is_two_stage_social_task run.task_type ≡ true) (id : ℕ) (ids : List ℕ)
    (chosen : run.selected_idea_ids ≡ some (id ∷ ids)) where
  -- What the store holds when the run takes a status: a verified result for each selected idea, in
  -- order, or, when it fails, for the first of them, or what it held before.
  abbrev pub Kept : SocialResults → RunStatus → TransitionExtras → Type 0
  Kept after completed x = marks reel after ≡ ok_marks (id ∷ ids)
  Kept after failed x =
      (is_some x.failed_code ≡ true)
      × (Part services run (extras_of store) reel kind two [] (id ∷ ids) after
          ⊎ (marks reel after ≡ marks reel store))
  Kept after _ x = ⊥

  -- Why the run's status is left as it is: its signal is aborted where the execution ends, the graph
  -- threw an abort error there, or the first write failed, and then `execute` throws its error.
  abbrev pub Left : Shelf services → Outcome (Unit {0}) → Type 0
  Left held o =
      ((o ≡ returned tt)
        × ((signal held.1 ≡ true)
            ⊎ ((e : DomainException) × (is_abort_error e ≡ true)
                × (h : Shelf services) × (invoke_social_phase services run content_phase
                      (extras_of store) h
                    ≡ some (thrown e, held)))))
      ⊎ ((e : DomainException) × (o ≡ thrown e) × (services.write w ≡ (thrown e, held.1)))

  -- How the run's row stands, and what was logged: as at the start, or, from the write of the
  -- pipeline's state on, the row with the phase and the counts that are in the results, and the
  -- entries of the agents and the verifier.
  abbrev pub SocialWritten : Shelf services → RunRow → List RunLogEntry → Type 0
  SocialWritten held c entries =
      ((c ≡ r) × (entries ≡ []))
      ⊎ ((c ≡ with_social_pipeline held.0.pipeline r) × (entries ≡ services.logged held.1))

  abbrev pub SocialEnds : Option (Outcome (Unit {0}) × Job SocialResults W) → Type 0
  SocialEnds none = ⊥
  SocialEnds (some q) =
      Settled db signal message now run world claimed SocialWritten Kept q
      ⊎ Stopped db signal message now run world claimed SocialWritten Left q

  Base : Shelf services → Type 0
  Base held =
      Wrote run.id (with_social_pipeline held.0.pipeline r) [] (services.logged held.1) world
        (social_synced db services signal message number_text now run held world)

  base : (held : Shelf services) → Base held
  unfolding Base social_synced
  base (after, w1) =
      synced-Wrote db run r world stands (with_social_pipeline after.pipeline) (services.logged w1)
        (λ q. refl)

  fails :
      (e : DomainException) (held h : Shelf services)
      → Part services run (extras_of store) reel kind two [] (id ∷ ids) held.0
        ⊎ (marks reel held.0 ≡ marks reel store)
      → invoke_social_phase services run content_phase (extras_of store) h ≡ some (thrown e, held)
      → SocialEnds (
          some (
            caught db signal message now run e held
              (social_synced db services signal message number_text now run held world)))
  unfolding Base
  fails e held h kept threw =
      caught_ends db signal message now run world claimed SocialWritten _ _ held (inr (refl, refl))
        _ (base held) Kept Left e (refl, kept) (λ stop. inl (refl, inl stop))
        (λ stop. inl (refl, inr (e, stop, h, threw)))

  settles :
      (to : RunStatus) (x : TransitionExtras) (held : Shelf services)
      → can_transition running to ≡ true
      → Kept held.0 to x
      → SocialEnds (
          some (
            guarded db signal message now run
              (move db now run to x
                (social_synced db services signal message number_text now run held world))
              held))
  unfolding Base
  settles to x held legal good = inl (
      guarded_settles db signal message now run world claimed SocialWritten _ _ held
        (inr (refl, refl)) _ (base held) Kept to x legal good)

  answered_ends :
      (h : Shelf services) (q : Phased services run content_phase (extras_of store))
      → h.0.contents ≡ store.contents
      → h.0.reel_scripts ≡ store.reel_scripts
      → invoke_social_phase services run content_phase (extras_of store) h ≡ q
      → Staged services run (extras_of store) reel kind two h.0 (id ∷ ids) q
      → SocialEnds
          (social_answered_if db services signal message number_text now run content_phase q world)
  unfolding social_answered_if social_answered finish_social can_transition
  answered_ends h none posts reels e (inl (x, w', throws)) = cc
  answered_ends h none posts reels e (inr ends) = ends
  answered_ends h (some (thrown x, held)) posts reels e (inl (y, w', throws)) =
      fails x held h (inr (ground arith)) e
  answered_ends h (some (thrown x, held)) posts reels e (inr part) = fails x held h (inl part) e
  answered_ends h (some (returned (social_failed code text v), held)) posts reels e
        (inl (y, w', throws)) =
      cc
  answered_ends h (some (returned (social_failed code text v), held)) posts reels e (inr part) =
      settles failed _ held refl (refl, inl part)
  answered_ends h (some (returned (social_awaiting_hitl i q), held)) posts reels e
        (inl (y, w', throws)) =
      cc
  answered_ends h (some (returned (social_awaiting_hitl i q), held)) posts reels e (inr ends) =
      elim ends [ ]
  answered_ends h (some (returned (social_completed i c q s), held)) posts reels e
        (inl (y, w', throws)) =
      cc
  answered_ends h (some (returned (social_completed i c q s), held)) posts reels e (inr all_there) =
      settles completed _ held refl all_there

  launched_ends :
      (q : Outcome (Unit {0}) × W)
      → is_social_task_type run.task_type ≡ true
      → is_social_platform run.platform ≡ true
      → services.write w ≡ q
      → SocialEnds (
          social_launched db services signal message number_text now run content_phase store q
            world)
  unfolding social_launched Base
  launched_ends (thrown e, w1) social platform failure =
      inr (r, [], inr (e, refl, failure), inl (refl, refl), unsynced-Wrote db run r world stands)
  launched_ends (returned _, w1) social platform wrote = elim (Bool-cases (signal w1)) [
    | inl stop ↦ rw stop (
        inr
          (_, _, inl (refl, inl stop), inr (refl, refl), base (with_phase content_phase store, w1)))
    | inr live ↦ rw live (
        answered_ends (with_phase content_phase store, w1) _ refl refl refl
          (invoke_social_phase-Staged services run (extras_of store) reel kind two
            (with_phase content_phase store) w1 id ids social platform chosen))
  ]

  second_stage : content_phase ≡ resolve_social_phase run store.pipeline.phase
  unfolding resolve_social_phase
  second_stage = ground (arith, two, chosen)

  -- The second stage of a stored social run that was claimed comes to an end, whatever the services
  -- answer, when the database takes the updates of the run's status, as the laws of the client have
  -- it for a stored row. Either the run has completed, and the stored results are one for each
  -- selected idea, in the order of the selection, each with a verdict that is ok, and nothing else;
  -- or it has failed, with a code, and they are such results for the first of the ideas, or those
  -- before; and its stream has the events of that status. Or the run's status has not changed:
  -- because its signal is aborted where the execution ends, because the graph threw an abort error
  -- there, or because the first write failed, whose error is then thrown. Beside this the run's row
  -- has at most the phase and the counts that the pipeline saved; the log has at most the entries of
  -- the agents and the verifier, each published before the events of the status; and no other row
  -- has changed.
  pub execute_social_ends :
      is_social_task_type run.task_type ≡ true
      → is_social_platform run.platform ≡ true
      → SocialEnds
          (execute_social db services signal message number_text now run ((store, w), world))
  unfolding execute_social social_begun awaited_ids resolve_social_phase
  execute_social_ends social platform =
      let chooses : selects run.selected_idea_ids ≡ true = rw chosen refl in
      rw (social, chooses)
        (subst
          (λ p. SocialEnds (
            social_launched db services signal message number_text now run p store
              (services.write w) world))
          second_stage (launched_ends (services.write w) social platform refl))
