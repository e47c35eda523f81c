-- ===== src/Runs/World.antt =====
-- The state that the use cases of apps/api/src/runs share, and the monad of their methods: a method
-- that throws keeps what it has written.
use Prim.Native.String.{String}
use content_chain.Prelude.{ℕ, Bool, List, [], ◌∷◌, Option}
use content_chain.Shared.Enums.{RunStatus}
use content_chain.Shared.Exception.{Outcome, returned, thrown}
use content_chain.Guest.Quota.{Counters}
use content_chain.Runs.Record.{RunRow, Table}
use content_chain.Runs.Abort.{RunAbortRegistry}

pub data RunLogLevel : Type 0 where
  info warn error : RunLogLevel

pub record RunLogEntry : Type 0 where
  pub run_id : ℕ
  pub conversation_id : Option ℕ
  pub at : ℕ
  pub level : RunLogLevel
  pub message : String
  pub step : Option String

-- apps/api/src/runs/domain/run-sse.port.ts. A HITL option is shown by its identifier.
pub data RunSseEvent : Type 0 where
  run_status : ℕ → RunStatus → RunSseEvent
  run_log : RunLogEntry → RunSseEvent
  run_hitl : ℕ → List ℕ → RunSseEvent
  run_completed : ℕ → Option String → RunSseEvent
  run_failed : ℕ → Option String → String → RunSseEvent
  run_cancelled : ℕ → RunSseEvent

-- What is called on the hub.
pub data HubCall : Type 0 where
  publishes : RunSseEvent → HubCall
  completes : ℕ → HubCall

-- What is called on the worker.
pub data Notice : Type 0 where
  queued_notice : Notice
  hitl_resumed : RunRow → Notice

pub record World : Type 0 where
  pub table : Table
  -- Logs and calls, the newest first.
  pub logs : List RunLogEntry
  pub hub_calls : List HubCall
  pub notices : List Notice
  pub registry : RunAbortRegistry
  pub quota : Counters

abbrev pub M {ℓ} : Type ℓ → Type ℓ
M A = World → Outcome A × World

abbrev next_call {ℓ κ} :
    {A : Type ℓ} {B : Type κ} → (A → M B) → Outcome A → World → Outcome B × World
next_call f (returned a) w = f a w
next_call f (thrown e) w = (thrown e, w)

infixl 5 ◌>>=◌ ◌>>◌
abbrev pub ◌>>=◌ {ℓ κ} : {A : Type ℓ} {B : Type κ} → M A → (A → M B) → M B
◌>>=◌ m f w = let (o, w') = m w in next_call f o w'

abbrev pub ◌>>◌ {κ} : {B : Type κ} → M (Unit {0}) → M B → M B
m >> k = m >>= λ _. k

abbrev pub return {ℓ} : {A : Type ℓ} → A → M A
return a w = (returned a, w)

-- A computation that reads and writes nothing.
abbrev pub lift {ℓ} : {A : Type ℓ} → Outcome A → M A
lift o w = (o, w)

abbrev pub reading {ℓ} : {A : Type ℓ} → (Table → Outcome A) → M A
reading f w = (f w.table, w)

abbrev pub on_table {ℓ} : {A : Type ℓ} → (Table → Outcome A × Table) → M A
on_table f w = let (o, t) = f w.table in (o, record w { table = t })

abbrev pub modify_table : (Table → Table) → M (Unit {0})
modify_table f w = (returned tt, record w { table = f w.table })

-- A conditional update with the flag that it returns.
abbrev pub try_update : (Table → Bool × Table) → M Bool
try_update f w = let (b, t) = f w.table in (returned b, record w { table = t })

abbrev pub call_hub : HubCall → M (Unit {0})
call_hub c w = (returned tt, record w { hub_calls = c ∷ w.hub_calls })

abbrev pub publish : RunSseEvent → M (Unit {0})
publish e = call_hub (publishes e)

abbrev pub complete : ℕ → M (Unit {0})
complete id = call_hub (completes id)

abbrev pub write_log : RunLogEntry → M (Unit {0})
write_log e w = (returned tt, record w { logs = e ∷ w.logs })

abbrev pub notify : Notice → M (Unit {0})
notify n w = (returned tt, record w { notices = n ∷ w.notices })

-- `for (const x of xs) await step(x)`
unfoldable pub for_each {ℓ} : {A : Type ℓ} → (A → M (Unit {0})) → List A → M (Unit {0})
for_each step [] = return tt
for_each step (x ∷ xs) = do step x; for_each step xs
