-- ===== src/Runs/StartRun/Laws.antt =====
-- What a start stores, and what it gives back when it fails.
use content_chain.Prelude.{
  ℕ, ◌≡◌, refl, inl, inr, Bool, true, false, ◌&&◌, [], ◌∷◌, Has, count, Option, none, some, arith,
  if◌then◌else◌, ==_refl, leb,
}
use content_chain.Prelude.Int.{pos}
use content_chain.Shared.Enums.{
  RunTaskType, queued, has_task_type, same_task_type, is_social_task_type,
}
use content_chain.Shared.Exception.{
  returned, rejected, throw, guest_type_not_allowed, guest_type_quota_exceeded,
}
use content_chain.Shared.Actor.{AuthUserContext, Env}
use content_chain.Guest.Quota.{Counters, RedisClient, runs, utc_date_key, ok, try_admit_daily_run}
use content_chain.Guest.Quota.Laws.{release_daily_run-try_admit_daily_run}
use content_chain.Guest.Policy.{guest_task_types}
use content_chain.Guest.Policy.Laws.{
  is_limited, used, admit_start_free, admit_start_bars, admit_start_limits, admit_start_lets_in,
}
use content_chain.Runs.Record.{RunRow, RunSnapshot, Table, to_snapshot, is_readable}
use content_chain.Runs.Prisma.{PrismaClient}
use content_chain.Runs.Repository.{
  create_run, get_by_id, started_by_of, count_by_user_and_type, is_user,
}
use content_chain.Runs.World.{World, queued_notice}
use content_chain.Runs.StartRun.{
  StartRunCommand, social_start, page_start, admit, store_run, created, rethrow, task_type_of,
  new_run, start_run,
}

same_task_type_refl : (t : RunTaskType) → same_task_type t t ≡ true
same_task_type_refl t = ground arith

module _ (db : PrismaClient) (redis : RedisClient) (env : Env) (now later id conversation : ℕ)
    (command : StartRunCommand) (actor : AuthUserContext) (w : World) where
  abbrev run : RunRow
  run = new_run id conversation now (some actor.id) command

  new_run-id :
      (c : StartRunCommand) (by : Option ℕ)
      → let r = new_run id conversation now by c in (r.id ≡ id) × (r.status ≡ queued)
  unfolding new_run
  new_run-id (social_start t p l b ids) by = (refl, refl)
  new_run-id (page_start t k l b) by = (refl, refl)

  -- A row that can be read back, at the head of the table.
  read_back :
      (r : RunRow) (t : Table) (j : ℕ)
      → r.id ≡ j
      → is_readable r ≡ true
      → (s : RunSnapshot) × (get_by_id db j (r ∷ t) ≡ returned (some s)) × (s.status ≡ r.status)
  unfolding get_by_id to_snapshot started_by_of
  read_back r t j e fine = (
    record {
      run = if is_social_task_type r.task_type then record r { content_kind = none } else r;
      started_by = started_by_of db r.started_by_user_id;
    },
    ground (arith, db.find_unique_lem j (r ∷ t), ==_refl j),
    ground arith,
  )

  -- A start by a user who is no guest of the demo, with the context complete, a record that the
  -- adapter can read back, and a database that takes it: the run is stored as queued beside the
  -- others, the worker is told, and the answer names the run; no admission is counted.
  pub start_run_stores :
      (u : Table)
      → is_limited env actor ≡ false
      → is_readable run ≡ true
      → db.create run w.table ≡ some u
      → let (o, w') =
          start_run db redis env now later id conversation true command (some actor) w in
        (o ≡ returned (record { id = id; conversation_id = conversation; status = queued }))
        × (w'.table ≡ run ∷ w.table)
        × (w'.notices ≡ queued_notice ∷ w.notices)
        × (w'.quota ≡ w.quota)
  unfolding start_run admit store_run created create_run
  start_run_stores u free fine made =
      let (same, starts) = new_run-id command (some actor.id) in
      let (s, read, status) = read_back run w.table id same fine in
      rw (admit_start_free db redis env now actor (task_type_of command) w free) (
        rw (made, db.create_lem run w.table u made)
          (rw read (rw (status, starts) refl, refl, refl, refl)))

  -- A row of the user's, of that task, whatever its status.
  abbrev pub HasStarted : Type 0
  HasStarted =
      (r : RunRow) × Has r w.table
      × (r.started_by_user_id ≡ some actor.id)
      × (r.task_type ≡ task_type_of command)

  used-HasStarted : HasStarted → leb 1 (used db redis env now actor (task_type_of command) w) ≡ true
  unfolding count_by_user_and_type
  used-HasStarted (r, there, mine, same) =
      let p = λ (q : RunRow).
        is_user actor.id q.started_by_user_id
        && same_task_type q.task_type (task_type_of command) in
      let fits : p r ≡ true = rw (mine, same, ==_refl actor.id) (same_task_type_refl _) in
      rw (db.count_rows_lem p w.table) (counted p r w.table there fits)
    where
      counted :
          (p : RunRow → Bool) (q : RunRow) (t : Table)
          → Has q t
          → p q ≡ true
          → leb 1 (count p t) ≡ true
      counted p q [] m fits = elim m [ ]
      counted p q (s ∷ t) (inl e) fits = ground arith
      counted p q (s ∷ t) (inr m) fits = ground (arith, counted p q t m fits)

  -- With the context complete, a guest of the demo who asks for a task that guests may not start is
  -- refused with GUEST_TYPE_NOT_ALLOWED, and one who asks for a task that they may start, but of
  -- which a run of theirs is stored, in whatever status, with GUEST_TYPE_QUOTA_EXCEEDED, both with
  -- status 403; and nothing changes.
  pub start_run_refuses_guest :
      is_limited env actor ≡ true
      → (has_task_type guest_task_types (task_type_of command) ≡ false
          → start_run db redis env now later id conversation true command (some actor) w
            ≡ (throw guest_type_not_allowed 403, w))
        × (has_task_type guest_task_types (task_type_of command) ≡ true
            → HasStarted
            → start_run db redis env now later id conversation true command (some actor) w
              ≡ (throw guest_type_quota_exceeded 403, w))
  unfolding start_run admit
  start_run_refuses_guest demo = (
    λ barred.
        rw (admit_start_bars db redis env now actor (task_type_of command) w demo barred) refl,
    λ allowed before.
        rw
          (admit_start_limits db redis env now actor (task_type_of command) w demo allowed
            (used-HasStarted before))
          refl,
  )

  -- When the database refuses the record of an admitted guest's run, its error is passed on, the
  -- table is as it was, the worker is not told, and the day's counter, not negative before, has its
  -- value of before the admission, provided that Redis counts down and that the UTC day of the
  -- admission is not over when it is given back.
  pub start_run_releases :
      (n : ℕ) (c d : Counters)
      → utc_date_key later ≡ utc_date_key now
      → is_limited env actor ≡ true
      → has_task_type guest_task_types (task_type_of command) ≡ true
      → leb 1 (used db redis env now actor (task_type_of command) w) ≡ false
      → try_admit_daily_run redis env.guest_global_cap_per_day now w.quota ≡ (ok, c)
      → redis.decr (runs (utc_date_key now)) c ≡ some d
      → w.quota (runs (utc_date_key now)) ≡ pos n
      → db.create run w.table ≡ none
      → let (o, w') =
          start_run db redis env now later id conversation true command (some actor) w in
        (o ≡ rejected)
        × (w'.table ≡ w.table)
        × (w'.notices ≡ w.notices)
        × (w'.quota (runs (utc_date_key now)) ≡ pos n)
  unfolding start_run admit store_run created rethrow create_run
  start_run_releases n c d day demo allowed first let_in counts_down at_n fails =
      let lets_in =
        admit_start_lets_in db redis env now actor (task_type_of command) w c demo allowed first
          let_in in
      let back =
        release_daily_run-try_admit_daily_run redis env.guest_global_cap_per_day now later n w.quota
          c d day at_n let_in counts_down in
      rw lets_in (rw fails (refl, refl, refl, back))
