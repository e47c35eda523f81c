-- ===== src/Runs/Hub/Laws.antt =====
-- The maps of the hub agree, and what a subscriber is told of a transition.
use content_chain.Prelude.{
  ℕ, ◌≡◌, refl, ap, ◌∙◌, Bool, true, false, List, [], ◌∷◌, ◌++◌, Option, none, some, arith,
  if◌then◌else◌, ◌==◌, ==_refl, get_or,
}
use content_chain.Shared.Enums.{
  RunStatus, queued, running, interrupted, awaiting_hitl, completed, failed, cancelled,
}
use content_chain.Runs.Status.{can_transition}
use content_chain.Runs.Record.{RunRow}
use content_chain.Runs.Prisma.{PrismaClient}
use content_chain.Runs.Rows.{row}
use content_chain.Runs.World.{
  World, RunSseEvent, run_status, run_hitl, run_completed, run_failed, HubCall, publishes,
  completes,
}
use content_chain.Runs.Lifecycle.{TransitionExtras, is_pipeline_end, transition}
use content_chain.Runs.Lifecycle.Laws.{announced, transition_legal}
use content_chain.Runs.Hub.{
  Emission, next_event, completion, ttl_error, Hub, new_hub, entry, deleted, emit, subject_or_new,
  subscribe, run_id_of, emit_to, publish_event, close, complete_run, if_current, expire, call,
  replay,
}

pub entry-deleted :
    (id j : ℕ) (m : List (ℕ × ℕ)) → entry j (deleted id m) ≡ (if j == id then none else entry j m)
unfolding entry deleted
entry-deleted id j [] = ground arith
entry-deleted id j ((k, s) ∷ m) = ground (arith, entry-deleted id j m)

-- Every subject has its own timer, and no timer is pending for another one.
abbrev pub Timed : Hub → Type 0
Timed hub = (j : ℕ) → entry j hub.ttl_timers ≡ entry j hub.subjects

pub data Act : Type 0 where
  subscribes : ℕ → Act
  calls : HubCall → Act
  expires : ℕ → ℕ → Act

abbrev pub act : Act → Hub → Hub
act (subscribes id) hub = (subscribe id hub).1
act (calls c) hub = call c hub
act (expires id created) hub = expire id created hub

close-Timed :
    (o : Option ℕ) (id : ℕ) (e : Emission) (hub : Hub) → Timed hub → Timed (close o id e hub)
unfolding close emit
close-Timed none id e hub t j = t j
close-Timed (some s) id e hub t j =
    rw (entry-deleted id j hub.ttl_timers, entry-deleted id j hub.subjects, t j) refl

emit_to-Timed : (o : Option ℕ) (e : Emission) (hub : Hub) → Timed hub → Timed (emit_to o e hub)
unfolding emit_to emit
emit_to-Timed none e hub t j = t j
emit_to-Timed (some s) e hub t j = t j

subject_or_new-Timed :
    (o : Option ℕ) (id : ℕ) (hub : Hub) → Timed hub → Timed (subject_or_new o id hub).1
unfolding subject_or_new entry
subject_or_new-Timed (some s) id hub t j = t j
subject_or_new-Timed none id hub t j = rw (t j) refl

act-Timed : (a : Act) (hub : Hub) → Timed hub → Timed (act a hub)
unfolding subscribe publish_event complete_run expire
act-Timed (subscribes id) hub t = subject_or_new-Timed (entry id hub.subjects) id hub t
act-Timed (calls (publishes e)) hub t = emit_to-Timed (entry (run_id_of e) hub.subjects) _ hub t
act-Timed (calls (completes id)) hub t = close-Timed (entry id hub.subjects) id completion hub t
act-Timed (expires id created) hub t =
    close-Timed (if_current created (entry id hub.subjects)) id ttl_error hub t

unfoldable pub acts : List Act → Hub → Hub
acts [] hub = hub
acts (a ∷ later) hub = acts later (act a hub)

acts-Timed : (l : List Act) (hub : Hub) → Timed hub → Timed (acts l hub)
unfolding acts
acts-Timed [] hub t = t
acts-Timed (a ∷ later) hub t = acts-Timed later (act a hub) (act-Timed a hub t)

-- However subscriptions, publications, completions and expiries follow one another on a new hub, a
-- run has a pending timer exactly when it has a subject, and the timer was set for that subject.
pub hub_timers : (l : List Act) → Timed (acts l new_hub)
hub_timers l = acts-Timed l new_hub (λ j. refl)

-- What a subscriber is told of a transition.
abbrev pub told : ℕ → RunStatus → TransitionExtras → List Emission
told id awaiting_hitl x =
    next_event (run_status id awaiting_hitl)
    ∷ next_event (run_hitl id (get_or x.hitl_options []))
    ∷ []
told id completed x =
    next_event (run_status id completed)
    ∷ next_event (run_completed id x.result_summary)
    ∷ completion
    ∷ []
told id failed x =
    next_event (run_status id failed)
    ∷ next_event (run_failed id x.failed_code (get_or x.failed_message "run failed"))
    ∷ completion
    ∷ []
told id to x = next_event (run_status id to) ∷ []

append_one :
    (xs : List Emission) (a : Emission) (ys : List Emission) → (xs ++ (a ∷ [])) ++ ys ≡ xs ++ a ∷ ys
append_one [] a ys = refl
append_one (x ∷ xs) a ys = rw (append_one xs a ys) refl

replay-append :
    (xs ys : List HubCall) (hub : Hub) → replay (xs ++ ys) hub ≡ replay xs (replay ys hub)
unfolding replay
replay-append [] ys hub = refl
replay-append (x ∷ xs) ys hub = ap (call x) (replay-append xs ys hub)

-- The subject of the run after what was emitted, and whether it is still there.
abbrev pub Told : ℕ → ℕ → List Emission → Bool → Hub → Hub → Type 0
Told id s es gone hub hub' =
    (hub'.emitted s ≡ hub.emitted s ++ es)
    × (entry id hub'.subjects ≡ (if gone then none else some s))

module _ (id s : ℕ) (hub : Hub) (there : entry id hub.subjects ≡ some s) where
  publish-Told :
      (e : RunSseEvent)
      → run_id_of e ≡ id
      → Told id s (next_event e ∷ []) false hub (publish_event e hub)
  unfolding publish_event emit_to emit
  publish-Told e mine = rw (mine, there) (rw (==_refl s) refl, there)

  complete-Told : Told id s (completion ∷ []) true hub (complete_run id hub)
  unfolding complete_run close emit
  complete-Told =
      rw there (rw (==_refl s) refl, rw (entry-deleted id id hub.subjects, ==_refl id) refl)

Told-trans :
    (id s : ℕ) (e : Emission) (es : List Emission) (gone : Bool) (a b c : Hub)
    → Told id s (e ∷ []) false a b
    → (entry id b.subjects ≡ some s → Told id s es gone b c)
    → Told id s (e ∷ es) gone a c
Told-trans id s e es gone a b c (said, there) f =
    let (later, left) = f there in
    (later ∙ ap (λ (l : List Emission). l ++ es) said ∙ append_one (a.emitted s) e es, left)

-- Two events in a row, and two events before the end of the stream.
two-Told :
    (id s : ℕ) (hub : Hub) (a b : RunSseEvent)
    → entry id hub.subjects ≡ some s
    → run_id_of a ≡ id
    → run_id_of b ≡ id
    → Told id s (next_event a ∷ next_event b ∷ []) false hub (publish_event b (publish_event a hub))
two-Told id s hub a b there mine mine' =
    let h1 = publish_event a hub in
    Told-trans id s (next_event a) (next_event b ∷ []) false hub h1 (publish_event b h1)
      (publish-Told id s hub there a mine) (λ t1. publish-Told id s h1 t1 b mine')

end-Told :
    (id s : ℕ) (hub : Hub) (a b : RunSseEvent)
    → entry id hub.subjects ≡ some s
    → run_id_of a ≡ id
    → run_id_of b ≡ id
    → Told id s
        (next_event a ∷ next_event b ∷ completion ∷ [])
        true
        hub
        (complete_run id (publish_event b (publish_event a hub)))
end-Told id s hub a b there mine mine' =
    let h1 = publish_event a hub in
    let h2 = publish_event b h1 in
    Told-trans id s (next_event a) (next_event b ∷ completion ∷ []) true hub h1 (complete_run id h2)
      (publish-Told id s hub there a mine)
      (λ t1.
        Told-trans id s (next_event b) (completion ∷ []) true h1 h2 (complete_run id h2)
          (publish-Told id s h1 t1 b mine') (λ t2. complete-Told id s h2 t2))

announced-Told :
    (id s : ℕ) (to : RunStatus) (x : TransitionExtras) (hub : Hub)
    → entry id hub.subjects ≡ some s
    → Told id s (told id to x) (is_pipeline_end to) hub (replay (announced id to x) hub)
unfolding replay
announced-Told id s awaiting_hitl x hub there = two-Told id s hub _ _ there refl refl
announced-Told id s completed x hub there = end-Told id s hub _ _ there refl refl
announced-Told id s failed x hub there = end-Told id s hub _ _ there refl refl
announced-Told id s queued x hub there = publish-Told id s hub there _ refl
announced-Told id s running x hub there = publish-Told id s hub there _ refl
announced-Told id s interrupted x hub there = publish-Told id s hub there _ refl
announced-Told id s cancelled x hub there = publish-Told id s hub there _ refl

-- Who has subscribed to a stored run is told of a transition that is allowed: the new status, then
-- the options, the result or the error that go with it, in this order, after what was told before.
-- When the run has completed or failed the stream is closed and the hub has no subject for it any
-- more; otherwise it keeps the one that it has.
pub transition-Told :
    (db : PrismaClient) (now : ℕ) (run r : RunRow) (to : RunStatus) (x : TransitionExtras)
    (w : World) (hub : Hub) (s : ℕ)
    → row run.id w.table ≡ some r
    → can_transition run.status to ≡ true
    → entry run.id (replay w.hub_calls hub).subjects ≡ some s
    → Told run.id s
        (told run.id to x)
        (is_pipeline_end to)
        (replay w.hub_calls hub)
        (replay (transition db now run to x w).1.hub_calls hub)
transition-Told db now run r to x w hub s stands legal there =
    let (_, _, made, _, _, _) = transition_legal db now run x w to r stands legal in
    rw (made, replay-append (announced run.id to x) w.hub_calls hub)
      (announced-Told run.id s to x (replay w.hub_calls hub) there)
