-- ===== src/Content/Executor/Laws.antt =====
-- Where the execution of a page run ends.
use Prim.Native.String.{String}
use content_chain.Prelude.{
  ℕ, ◌≡◌, refl, ◌⊎◌, inl, inr, Bool, true, List, [], ◌∷◌, Option, none, some, arith, Bool-cases,
  is_some,
}
use content_chain.Shared.Enums.{
  RunStatus, running, awaiting_hitl, completed, failed, ContentKind, is_content_task_type,
}
use content_chain.Shared.Exception.{DomainException, is_abort_error, Outcome, returned, thrown}
use content_chain.Runs.Status.{can_transition}
use content_chain.Runs.Record.{RunRow}
use content_chain.Runs.Prisma.{PrismaClient}
use content_chain.Runs.Rows.{row}
use content_chain.Runs.World.{World, RunLogEntry}
use content_chain.Runs.Lifecycle.{TransitionExtras}
use content_chain.Runs.Executor.{Job, move, caught, guarded}
use content_chain.Runs.Executor.Laws.{
  Wrote, Settled, Stopped, unsynced-Wrote, synced-Wrote, move_settles, guarded_settles, caught_ends,
}
use content_chain.Content.Types.{
  ContentPipelinePhase, outline_phase, copy_phase, PageOutline, PageDocument, VerifierVerdict,
  ContentPipelineState, ContentResults,
}
use content_chain.Content.Graph.{Services, Held}
use content_chain.Content.Facade.{
  ContentPipelineOutcome, pipeline_completed, pipeline_awaiting_hitl, pipeline_failed, counts_of,
  invoke_phase,
}
use content_chain.Content.Facade.Laws.{Told, TellsIfAny, invoke_phase-Tells}
use content_chain.Content.Executor.{
  with_pipeline, pipeline_state, page_synced, Plan, fail_with, await_choice, go_on, plan, plan_kind,
  plan_choice, plan_phase, finish, page_stored, page_answered, answered_if, launched, begun,
  execute,
}

-- What the store holds when the run takes a status.
abbrev pub Good : ContentResults → RunStatus → TransitionExtras → Type 0
Good store awaiting_hitl x =
    (o : PageOutline) × (store.outline ≡ some o) × (x.hitl_options ≡ some (o.id ∷ []))
Good store completed x =
    ((d : PageDocument) × (v : VerifierVerdict) × (x.result_summary ≡ some "pageDocument")
      × (store.document ≡ some (d, v))
      × (v.ok ≡ true))
    ⊎ ((o : PageOutline) × (x.result_summary ≡ some "outline") × (store.outline ≡ some o))
Good store failed x = is_some x.failed_code ≡ true
Good store _ x = ⊥

module _ {C W : Type 0} (services : Services C W) (signal : W → Bool) (run : RunRow) where
  -- The graph threw the error and left this behind, or a write of the pipeline's state did.
  abbrev pub Threw : DomainException → Held services → Type 0
  Threw e held =
      ((kind : ContentKind) × (phase : ContentPipelinePhase) × (drawn : Option PageOutline)
        × (counts : ContentPipelineState) × (h : Held services) × (invoke_phase services run kind
              phase drawn counts h
            ≡ some (thrown e, held)))
      ⊎ ((w : W) × (services.write w ≡ (thrown e, held.1)))

  -- Why an execution leaves the run's status as it is: the run's signal is aborted where it ends, or
  -- an abort error was thrown there, or the first write failed, and then `execute` throws its error.
  abbrev pub Reason : W → Held services → Outcome (Unit {0}) → Type 0
  Reason w held o =
      ((o ≡ returned tt)
        × ((signal held.1 ≡ true)
            ⊎ ((e : DomainException) × (is_abort_error e ≡ true) × Threw e held)))
      ⊎ ((e : DomainException) × (o ≡ thrown e) × (services.write w ≡ (thrown e, held.1)))

  -- How the run's row stands, and what was logged: as at the start, or, from the first write of the
  -- pipeline's state on, the row with the phase and the counts that are in the results by now, and
  -- the entries of the agents and the verifier.
  abbrev pub Written : RunRow → Held services → RunRow → List RunLogEntry → Type 0
  Written r held c entries =
      ((c ≡ r) × (entries ≡ []))
      ⊎ ((c ≡ with_pipeline held.0.pipeline r) × (entries ≡ services.logged held.1))

module _ {C W : Type 0} (db : PrismaClient) (services : Services C W) (signal : W → Bool)
    (message : DomainException → String) (now : ℕ) (run r : RunRow) (w : W) (world : World)
    (stands : row run.id world.table ≡ some r) (claimed : run.status ≡ running) where
  abbrev pub Ends : Outcome (Unit {0}) × Job ContentResults W → Type 0
  Ends q =
      Settled db signal message now run world claimed (Written services signal run r) Good q
      ⊎ Stopped db signal message now run world claimed (Written services signal run r)
          (Reason services signal run w) q

  abbrev pub EndsSome : Option (Outcome (Unit {0}) × Job ContentResults W) → Type 0
  EndsSome none = ⊥
  EndsSome (some q) = Ends q

  Base : Held services → Type 0
  Base held =
      Wrote run.id (with_pipeline held.0.pipeline r) [] (services.logged held.1) world
        (page_synced db services signal message now run held world)

  base : (held : Held services) → Base held
  unfolding Base page_synced
  base (store, w1) =
      synced-Wrote db run r world stands (with_pipeline store.pipeline) (services.logged w1)
        (λ q. refl)

  fails :
      (e : DomainException) (held : Held services)
      → Threw services signal run e held
      → Ends (
          caught db signal message now run e held
            (page_synced db services signal message now run held world))
  unfolding Base
  fails e held threw =
      caught_ends db signal message now run world claimed (Written services signal run r) _ _ held
        (inr (refl, refl)) _ (base held) Good (Reason services signal run w) e refl
        (λ stop. inl (refl, inl stop)) (λ stop. inl (refl, inr (e, stop, threw)))

  settles :
      (to : RunStatus) (x : TransitionExtras) (held : Held services)
      → can_transition running to ≡ true
      → Good held.0 to x
      → Ends (
          guarded db signal message now run
            (move db now run to x (page_synced db services signal message now run held world))
            held)
  unfolding Base
  settles to x held legal good = inl (
      guarded_settles db signal message now run world claimed (Written services signal run r) _ _
        held (inr (refl, refl)) _ (base held) Good to x legal good)

  -- The transition that the outcome asks for is legal, and the store is as it says.
  finish-Ends :
      (phase : ContentPipelinePhase) (outcome : ContentPipelineOutcome) (held : Held services)
      → Told phase outcome held.0
      → Ends (
          guarded db signal message now run
            (finish db services signal message now run phase outcome
              (page_synced db services signal message now run held world))
            held)
  unfolding finish can_transition
  finish-Ends phase (pipeline_failed code text _ _) held told = settles failed _ held refl refl
  finish-Ends phase (pipeline_awaiting_hitl drawn _) held told =
      settles awaiting_hitl _ held refl (drawn, told, refl)
  finish-Ends copy_phase (pipeline_completed _ _ _) held (d, v, _, there, fine) =
      settles completed _ held refl (inl (d, v, refl, there, fine))
  finish-Ends outline_phase (pipeline_completed _ _ _) held (o, _, there) =
      settles completed _ held refl (inr (o, refl, there))

  Told-pipeline :
      (phase : ContentPipelinePhase) (outcome : ContentPipelineOutcome) (store : ContentResults)
      (p : ContentPipelineState)
      → Told phase outcome store
      → Told phase outcome (record store { pipeline = p })
  Told-pipeline phase (pipeline_failed _ _ _ _) store p told = tt
  Told-pipeline phase (pipeline_awaiting_hitl _ _) store p told = told
  Told-pipeline copy_phase (pipeline_completed _ _ _) store p told = told
  Told-pipeline outline_phase (pipeline_completed _ _ _) store p told = told

  stored-Ends :
      (phase : ContentPipelinePhase) (outcome : ContentPipelineOutcome) (store : ContentResults)
      (w1 : W) (q : Outcome (Unit {0}) × W)
      → services.write w1 ≡ q
      → Told phase outcome store
      → Ends (page_stored db services signal message now run phase outcome store q world)
  unfolding page_stored
  stored-Ends phase outcome store w1 (thrown e, w2) failure told =
      fails e (store, w2) (inr (w1, failure))
  stored-Ends phase outcome store w1 (returned _, w2) wrote told =
      let counts = counts_of outcome in
      let saved = pipeline_state phase counts.outline_refine_count counts.copy_refine_count in
      finish-Ends phase outcome (record store { pipeline = saved }, w2)
        (Told-pipeline phase outcome store saved told)

  answered_ends :
      (kind : ContentKind) (phase : ContentPipelinePhase) (drawn : Option PageOutline)
      (counts : ContentPipelineState) (h : Held services)
      (q : Option (Outcome ContentPipelineOutcome × Held services))
      → invoke_phase services run kind phase drawn counts h ≡ q
      → TellsIfAny services phase q
      → EndsSome (answered_if db services signal message now run phase q world)
  unfolding answered_if page_answered
  answered_ends kind phase drawn counts h none e told = told
  answered_ends kind phase drawn counts h (some (thrown x, h')) e told =
      fails x h' (inl (kind, phase, drawn, counts, h, e))
  answered_ends kind phase drawn counts h (some (returned outcome, (store, w1))) e told =
      stored-Ends phase outcome store w1 (services.write w1) refl told

  launched_ends :
      (kind : ContentKind) (phase : ContentPipelinePhase) (store : ContentResults)
      (q : Outcome (Unit {0}) × W)
      → is_content_task_type run.task_type ≡ true
      → services.write w ≡ q
      → EndsSome (launched db services signal message now run kind phase store q world)
  unfolding launched Base
  launched_ends kind phase store (thrown e, w1) page failure =
      inr (r, [], inr (e, refl, failure), inl (refl, refl), unsynced-Wrote db run r world stands)
  launched_ends kind phase store (returned _, w1) page wrote = elim (Bool-cases (signal w1)) [
    | inl stop ↦ rw stop (
        inr (
          _,
          _,
          inl (refl, inl stop),
          inr (refl, refl),
          base (
            record store {
              pipeline =
                  pipeline_state phase store.pipeline.outline_refine_count
                    store.pipeline.copy_refine_count;
            },
            w1,
          ),
        ))
    | inr live ↦ rw live (
        answered_ends kind phase store.outline store.pipeline _ _ refl
          (invoke_phase-Tells services run kind phase store.outline store.pipeline _ page))
  ]

  -- A choice that is asked for is about the stored outline.
  abbrev Planned : ContentResults → Plan → Type 0
  Planned store (await_choice drawn) = store.outline ≡ some drawn
  Planned store _ = Unit

  plan-Planned : (store : ContentResults) (p : Plan) → plan run store ≡ p → Planned store p
  unfolding plan plan_kind plan_choice plan_phase
  plan-Planned store (await_choice drawn) e = ground arith
  plan-Planned store (fail_with code text) e = tt
  plan-Planned store (go_on kind phase) e = tt

  begun_ends :
      (store : ContentResults) (p : Plan)
      → is_content_task_type run.task_type ≡ true
      → Planned store p
      → EndsSome (begun db services signal message now run p ((store, w), world))
  unfolding begun can_transition
  begun_ends store (fail_with code text) page planned = inl (
      move_settles db signal message now run world claimed (Written services signal run r) r []
        (store, w) (inl (refl, refl)) world (unsynced-Wrote db run r world stands) Good failed _
        refl refl)
  begun_ends store (await_choice drawn) page planned = inl (
      move_settles db signal message now run world claimed (Written services signal run r) r []
        (store, w) (inl (refl, refl)) world (unsynced-Wrote db run r world stands) Good
        awaiting_hitl _ refl (drawn, planned, refl))
  begun_ends store (go_on kind phase) page planned =
      launched_ends kind phase store (services.write w) page refl

  -- The execution of a stored page run that was claimed comes to an end, whatever the services
  -- answer, when the database takes the updates of the run's status, as the laws of the client have
  -- it for a stored row. Either the run waits for a choice, has completed or has failed, with the
  -- events of that status, and in the store what the status says: the outline that is offered for
  -- the choice, the completed document with a verdict that is ok, or the completed outline. Or the
  -- run's status has not changed: because its signal is aborted where the execution ends, because
  -- the graph or a write threw an abort error there, or because the first write failed, whose error
  -- is then thrown. Beside this the run's row has at most the phase and the counts that the pipeline
  -- saved; the log has at most the entries of the agents and the verifier, each published before the
  -- events of the status; and no other row has changed.
  pub execute_ends :
      (store : ContentResults)
      → is_content_task_type run.task_type ≡ true
      → EndsSome (execute db services signal message now run ((store, w), world))
  unfolding execute
  execute_ends store page =
      rw page (begun_ends store (plan run store) page (plan-Planned store (plan run store) refl))
