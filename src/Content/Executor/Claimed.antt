-- ===== src/Content/Executor/Claimed.antt =====
-- A page run that the worker has claimed, through the dispatch, the executor and the graph.
use Prim.Native.String.{String}
use content_chain.Prelude.{
  ℕ, ◌≡◌, refl, ◌∙◌, ◌⊎◌, inl, inr, Bool, true, false, ◌||◌, List, ==_refl, Option, none, some,
  arith, if◌then◌else◌, ◌==◌,
}
use content_chain.Shared.Enums.{
  RunStatus, running, awaiting_hitl, completed, failed, same_status, is_content_task_type,
  is_social_task_type, RunTaskType,
}
use content_chain.Shared.Exception.{DomainException, is_abort_error, Outcome}
use content_chain.Runs.Record.{RunRow, is_readable}
use content_chain.Runs.Prisma.{PrismaClient}
use content_chain.Runs.Rows.{row}
use content_chain.Runs.Abort.{controller_of, begin}
use content_chain.Runs.World.{World, RunLogEntry, publish, run_status}
use content_chain.Runs.Lifecycle.{TransitionExtras}
use content_chain.Runs.Lifecycle.Laws.{moved}
use content_chain.Runs.Executor.{Job, dispatch}
use content_chain.Runs.Worker.Execution.{RunExecutor, execute_claimed}
use content_chain.Runs.Worker.Execution.Laws.{Handed, execute_via_executor-Handed}
use content_chain.Content.Types.{ContentResults}
use content_chain.Content.Graph.{Services}
use content_chain.Content.Executor.{execute}
use content_chain.Content.Executor.Laws.{Good, Threw, Written, Ends, EndsSome, execute_ends}

-- The executors as the worker gets them; `aborted` tells of a signal, by its reference, whether it
-- is aborted in a state of the services.
unfoldable pub run_executor :
    {C W : Type 0}
    → PrismaClient
    → Services C W
    → (ℕ → W → Bool)
    → (DomainException → String)
    → ℕ
    → RunExecutor (ContentResults × W)
    → RunExecutor (ContentResults × W)
run_executor db services aborted message now social =
    dispatch social (λ run signal. execute db services (aborted signal) message now run)

-- The statuses at which an execution leaves a run.
abbrev pub is_settled : RunStatus → Bool
is_settled s = same_status s awaiting_hitl || same_status s completed || same_status s failed

Good-is_settled :
    (store : ContentResults) (to : RunStatus) (x : TransitionExtras)
    → Good store to x
    → is_settled to ≡ true
Good-is_settled store awaiting_hitl x g = refl
Good-is_settled store completed x g = refl
Good-is_settled store failed x g = refl
Good-is_settled store RunStatus.queued x g = elim g [ ]
Good-is_settled store running x g = elim g [ ]
Good-is_settled store RunStatus.interrupted x g = elim g [ ]
Good-is_settled store RunStatus.cancelled x g = elim g [ ]

is_social-content :
    (t : RunTaskType) → is_content_task_type t ≡ true → is_social_task_type t ≡ false
is_social-content t e = ground arith

module _ {C W : Type 0} (db : PrismaClient) (services : Services C W) (aborted : ℕ → W → Bool)
    (message : DomainException → String) (now : ℕ) (social : RunExecutor (ContentResults × W))
    (run r : RunRow) (store : ContentResults) (w : W) (world : World)
    (stands : row run.id world.table ≡ some r) (claimed : run.status ≡ running) where
  abbrev ref : ℕ
  ref = (begin run.id world.registry).0

  -- Where the worker leaves the run, whose row stood as `c` before the status was settled.
  abbrev pub Settles : Option ((ContentResults × W) × World) → Type 0
  Settles none = ⊥
  Settles (some (held, world')) =
      (controller_of run.id world'.registry.controllers ≡ none)
      × (c : RunRow) × (entries : List RunLogEntry) × Written services (aborted ref) run r held c
          entries
      × (((to : RunStatus) × (is_settled to ≡ true)
            × ((j : ℕ)
                → row j world'.table
                  ≡ (if j == run.id then some (moved now to c) else row j world.table)))
          ⊎ (((j : ℕ) → row j world'.table ≡ (if j == run.id then some c else row j world.table))
              × ((aborted ref held.1 ≡ true)
                  ⊎ ((e : DomainException) × (is_abort_error e ≡ true)
                      × Threw services (aborted ref) run e held))))

  -- The state in which the executor begins.
  abbrev begun_world : World
  begun_world =
      let w1 = (publish (run_status run.id running) world).1 in
      record w1 { registry = (begin run.id world.registry).1 }

  abbrev Ended : Outcome (Unit {0}) × Job ContentResults W → Type 0
  Ended = Ends db services (aborted ref) message now run r w begun_world stands claimed

  Written-readable :
      (held : ContentResults × W) (c : RunRow) (entries : List RunLogEntry)
      → Written services (aborted ref) run r held c entries
      → r.status ≡ running
      → is_readable r ≡ true
      → (c.status ≡ running) × (is_readable c ≡ true)
  Written-readable held c entries (inl (same, _)) live fine = rw same (live, fine)
  Written-readable held c entries (inr (same, _)) live fine = rw same (live, fine)

  Handed-Settles :
      (q : Outcome (Unit {0}) × Job ContentResults W) (o : Option ((ContentResults × W) × World))
      → r.status ≡ running
      → is_readable r ≡ true
      → Ended q
      → Handed db now run q o
      → Settles o
  Handed-Settles q none live fine ends handed = handed
  Handed-Settles (o, (h, w1)) (some (h', w2)) live fine
        (inl (returns, to, x, c, entries, good, written, (rows, _, _, _, _)))
        (same, gone, kept, failure) =
      rw same (
        gone,
        c,
        entries,
        written,
        inl (to, Good-is_settled h.0 to x good, λ j. rw (kept returns) (rows j)),
      )
  Handed-Settles (o, (h, w1)) (some (h', w2)) live fine
        (inr (c, entries, inl (returns, why), written, (rows, _, _, _, _)))
        (same, gone, kept, failure) =
      rw same (gone, c, entries, written, inr (λ j. rw (kept returns) (rows j), why))
  Handed-Settles (o, (h, w1)) (some (h', w2)) live fine
        (inr (c, entries, inr (e, throws, refused), written, (rows, _, _, _, _)))
        (same, gone, kept, failure) =
      let (going, readable) = Written-readable h c entries written live fine in
      let stood : row run.id w1.table ≡ some c = rows run.id ∙ rw (==_refl run.id) refl in
      rw same (
        gone,
        c,
        entries,
        written,
        inl (
          failed,
          refl,
          λ j. failure e c throws stood readable j ∙ rw going (ground (arith, rows j)),
        ),
      )

  answers :
      (o : Option (Outcome (Unit {0}) × Job ContentResults W))
      → EndsSome db services (aborted ref) message now run r w begun_world stands claimed o
      → (q : Outcome (Unit {0}) × Job ContentResults W) × (o ≡ some q) × Ended q
  answers none ends = elim ends [ ]
  answers (some q) ends = (q, refl, ends)

  -- A stored page run that has been claimed, and whose row can be read, does not stay running, when
  -- the database takes the updates of the run's status, as the laws of the client have it for a
  -- stored row: the worker gives it back, with no controller of the run left, and the run waits for
  -- a choice, has completed or has failed. The exception is an abort: where the execution ended, the
  -- signal was aborted, or the graph or a write threw an abort error, and then the status has not
  -- changed. Beside this the run's row has at most the phase and the counts that the pipeline saved,
  -- and no other row has changed.
  pub claimed_page_run-Settles :
      is_content_task_type run.task_type ≡ true
      → r.status ≡ running
      → is_readable r ≡ true
      → Settles (
          execute_claimed db now run
            (run_executor db services aborted message now social)
            ((store, w), world))
  unfolding execute_claimed run_executor dispatch
  claimed_page_run-Settles page live fine =
      let (q, e, ends) = answers _ (
        execute_ends db services (aborted ref) message now run r w begun_world stands claimed store
          page) in
      Handed-Settles q _ live fine ends (
        execute_via_executor-Handed db now run (run_executor db services aborted message now social)
          (store, w) (publish (run_status run.id running) world).1 q (dispatched q e))
    where
      dispatched :
          (q : Outcome (Unit {0}) × Job ContentResults W)
          → execute db services (aborted ref) message now run ((store, w), begun_world) ≡ some q
          → run_executor db services aborted message now social run ref ((store, w), begun_world)
            ≡ some q
      dispatched q e = rw (is_social-content run.task_type page) e
