-- ===== src/Runs/Hub.antt =====
-- apps/api/src/runs/infrastructure/sse/run-sse.hub.ts. Subjects are shared objects: the map holds
-- references, and so do the subscribers, who are given what is emitted from their subscription on.
pub mod Laws
use content_chain.Prelude.{
  ℕ, ◌+◌, Bool, true, false, List, [], ◌∷◌, ◌++◌, Option, none, some, if◌then◌else◌, ◌==◌, is_some,
}
use content_chain.Runs.World.{
  RunSseEvent, run_status, run_log, run_hitl, run_completed, run_failed, run_cancelled, HubCall,
  publishes, completes,
}

pub data Emission : Type 0 where
  next_event : RunSseEvent → Emission
  completion : Emission
  -- The error of a subject whose time to live is exceeded.
  ttl_error : Emission

pub record Hub : Type 0 where
  pub subjects : List (ℕ × ℕ)
  -- The timers that are pending, each with the subject that it was set for.
  pub ttl_timers : List (ℕ × ℕ)
  -- The heap of subjects: what each has emitted, and the next reference.
  pub emitted : ℕ → List Emission
  pub next_subject : ℕ

abbrev pub new_hub : Hub
new_hub = record { subjects = []; ttl_timers = []; emitted = λ s. []; next_subject = 0 }

-- `get` and `delete` of a map.
unfoldable pub entry : ℕ → List (ℕ × ℕ) → Option ℕ
entry id [] = none
entry id ((k, s) ∷ m) = if k == id then some s else entry id m

unfoldable pub deleted : ℕ → List (ℕ × ℕ) → List (ℕ × ℕ)
deleted id [] = []
deleted id ((k, s) ∷ m) = let rest = deleted id m in if k == id then rest else (k, s) ∷ rest

unfoldable pub emit : ℕ → Emission → Hub → Hub
emit subject e hub = record hub {
  emitted = λ s. if s == subject then hub.emitted s ++ (e ∷ []) else hub.emitted s;
}

unfoldable pub subject_or_new : Option ℕ → ℕ → Hub → ℕ × Hub
subject_or_new (some subject) id hub = (subject, hub)
subject_or_new none id hub = (
  hub.next_subject,
  record hub {
    subjects = (id, hub.next_subject) ∷ hub.subjects;
    ttl_timers = (id, hub.next_subject) ∷ hub.ttl_timers;
    emitted = λ s. if s == hub.next_subject then [] else hub.emitted s;
    next_subject = hub.next_subject + 1;
  },
)

-- `subscribe`: the subject that is observed.
unfoldable pub subscribe : ℕ → Hub → ℕ × Hub
unfolding subject_or_new entry
subscribe id hub = subject_or_new (entry id hub.subjects) id hub

abbrev pub run_id_of : RunSseEvent → ℕ
run_id_of (run_status id _) = id
run_id_of (run_log e) = e.run_id
run_id_of (run_hitl id _) = id
run_id_of (run_completed id _) = id
run_id_of (run_failed id _ _) = id
run_id_of (run_cancelled id) = id

unfoldable pub emit_to : Option ℕ → Emission → Hub → Hub
unfolding emit
emit_to none e hub = hub
emit_to (some subject) e hub = emit subject e hub

unfoldable pub publish_event : RunSseEvent → Hub → Hub
unfolding emit_to entry
publish_event e hub = emit_to (entry (run_id_of e) hub.subjects) (next_event e) hub

-- The subject and its timer leave the maps, and the subject emits for the last time.
unfoldable pub close : Option ℕ → ℕ → Emission → Hub → Hub
unfolding emit deleted
close none id e hub = hub
close (some subject) id e hub =
    emit subject e
      (record hub { subjects = deleted id hub.subjects; ttl_timers = deleted id hub.ttl_timers })

unfoldable pub complete_run : ℕ → Hub → Hub
unfolding close entry
complete_run id hub = close (entry id hub.subjects) id completion hub

unfoldable pub has_subject : ℕ → Hub → Bool
unfolding entry
has_subject id hub = is_some (entry id hub.subjects)

-- The timer that was set for the subject `created` of a run goes off.
abbrev pub if_current : ℕ → Option ℕ → Option ℕ
if_current created none = none
if_current created (some current) = if current == created then some current else none

unfoldable pub expire : ℕ → ℕ → Hub → Hub
unfolding close entry
expire id created hub = close (if_current created (entry id hub.subjects)) id ttl_error hub

-- The calls of the lifecycle, the newest first, one after the other.
abbrev pub call : HubCall → Hub → Hub
call (publishes e) hub = publish_event e hub
call (completes id) hub = complete_run id hub

unfoldable pub replay : List HubCall → Hub → Hub
replay [] hub = hub
replay (c ∷ earlier) hub = call c (replay earlier hub)
