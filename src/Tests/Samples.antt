-- ===== src/Tests/Samples.antt =====
-- A database client, a Redis client and a few runs, on which the theorems are tried out.
use content_chain.Prelude.{
  ℕ, ◌+◌, ◌≤◌, ◌≡◌, refl, subst, ◌≢◌, inl, inr, Bool, true, false, [], ◌∷◌, Option, none, some,
  arith, if◌then◌else◌, ◌==◌, leb, Bool-cases, Option-cases, is_some, length, filter, find, count,
  Has, All,
}
use content_chain.Prelude.Int.{pos, increment, decrement}
use content_chain.Shared.Enums.{
  RunStatus, queued, running, awaiting_hitl, completed, cancelled, page_outline_then_copy, web,
  blog, en, user, guest,
}
use content_chain.Shared.Actor.{AuthUserContext, Env}
use content_chain.Guest.Quota.{RedisClient, with_value}
use content_chain.Runs.Record.{RunRow, Table, Brief, RunStartedBy, RunSnapshot, is_readable}
use content_chain.Runs.Prisma.{PrismaClient, DistinctIds, update_where, has_id}
use content_chain.Runs.World.{World}

abbrev pub older : RunRow → Option RunRow → Option RunRow
older r none = some r
older r (some s) = if leb r.created_at s.created_at then some r else some s

unfoldable pub oldest : (RunRow → Bool) → Table → Option RunRow
oldest p [] = none
oldest p (r ∷ t) = let rest = oldest p t in if p r then older r rest else rest

pub oldest-none : (p : RunRow → Bool) (t : Table) → oldest p t ≡ none → All (λ r. p r ≡ false) t
unfolding oldest
oldest-none p [] e = tt
oldest-none p (r ∷ t) e = elim (Bool-cases (p r)) [
  | inr unfit ↦ (unfit, oldest-none p t (ground arith))
  | inl fit ↦ elim (Option-cases (oldest p t)) [
    | inl nothing ↦ ground arith
    | inr (s, found) ↦ elim (Bool-cases (leb r.created_at s.created_at)) [
      | inl before ↦ ground arith
      | inr after ↦ ground arith
    ]
  ]
]

weaken :
    (p : RunRow → Bool) (a b : ℕ) (t : Table)
    → a ≤ b
    → All (λ s. p s ≡ true → b ≤ s.created_at) t
    → All (λ s. p s ≡ true → a ≤ s.created_at) t
weaken p a b [] h k = tt
weaken p a b (r ∷ t) h (k, ks) = (λ e. omega (arith, h, k e), weaken p a b t h ks)

none_fits :
    (p : RunRow → Bool) (a : ℕ) (t : Table)
    → All (λ r. p r ≡ false) t
    → All (λ s. p s ≡ true → a ≤ s.created_at) t
none_fits p a [] h = tt
none_fits p a (r ∷ t) (h, hs) = (λ e. ground arith, none_fits p a t hs)

abbrev Best : (RunRow → Bool) → Table → RunRow → Type 0
Best p t r = Has r t × (p r ≡ true) × All (λ s. p s ≡ true → r.created_at ≤ s.created_at) t

pub oldest-some :
    (p : RunRow → Bool) (t : Table) (r : RunRow)
    → oldest p t ≡ some r
    → Has r t × (p r ≡ true) × All (λ s. p s ≡ true → r.created_at ≤ s.created_at) t
unfolding oldest
oldest-some p [] r e = cc
oldest-some p (q ∷ t) r e = elim (Bool-cases (p q)) [
  | inr unfit ↦
      let (m, fits, rest) = oldest-some p t r (ground arith) in
      (inr m, fits, (λ x. ground arith, rest))
  | inl fit ↦ elim (Option-cases (oldest p t)) [
    | inl nothing ↦
        let same : q ≡ r = ground arith in
        subst (Best p (q ∷ t)) same
          (inl refl, fit, (λ x. omega arith, none_fits p q.created_at t (oldest-none p t nothing)))
    | inr (s, found) ↦
        let (m, fits, rest) = oldest-some p t s found in
        elim (Bool-cases (leb q.created_at s.created_at)) [
          | inl before ↦
              let same : q ≡ r = ground arith in
              subst (Best p (q ∷ t)) same (
                inl refl,
                fit,
                (λ x. omega arith, weaken p q.created_at s.created_at t (ground arith) rest),
              )
          | inr after ↦
              let same : s ≡ r = ground arith in
              subst (Best p (q ∷ t)) same (inr m, fits, (λ x. ground arith, rest))
        ]
  ]
]

-- A list with a first entry that stands there or not.
abbrev perhaps : Bool → RunRow → Table → Table
perhaps b q t = if b then q ∷ t else t

pub filter_sound :
    (p : RunRow → Bool) (t : Table) (r : RunRow) → Has r (filter p t) → Has r t × (p r ≡ true)
filter_sound p [] r m = elim m [ ]
filter_sound p (q ∷ t) r m = elim (Bool-cases (p q)) [
  | inl fits ↦ elim (subst (λ b. Has r (perhaps b q (filter p t))) fits m) [
    | inl e ↦ (inl e, rw e fits)
    | inr k ↦ let (k', h) = filter_sound p t r k in (inr k', h)
  ]
  | inr not_it ↦
      let (k, h) = filter_sound p t r (subst (λ b. Has r (perhaps b q (filter p t))) not_it m) in
      (inr k, h)
]

pub filter_complete :
    (p : RunRow → Bool) (t : Table) (r : RunRow) → Has r t → p r ≡ true → Has r (filter p t)
filter_complete p [] r m e = elim m [ ]
filter_complete p (q ∷ t) r (inl same) e =
    let fits : p q ≡ true = rw (← same) e in rw fits (inl same)
filter_complete p (q ∷ t) r (inr m) e =
    let rest = filter_complete p t r m e in
    elim (Bool-cases (p q)) [ inl fits ↦ rw fits (inr rest) | inr not_it ↦ rw not_it rest ]

All-ne-filter :
    (p : RunRow → Bool) (id : ℕ) (t : Table)
    → All (λ s. s.id ≢ id) t
    → All (λ s. s.id ≢ id) (filter p t)
All-ne-filter p id [] h = tt
All-ne-filter p id (q ∷ t) (h, hs) =
    let rest = All-ne-filter p id t hs in
    elim (Bool-cases (p q)) [ inl fits ↦ rw fits (h, rest) | inr not_it ↦ rw not_it rest ]

pub DistinctIds-filter : (p : RunRow → Bool) (t : Table) → DistinctIds t → DistinctIds (filter p t)
DistinctIds-filter p [] h = tt
DistinctIds-filter p (q ∷ t) (h, hs) =
    let rest = DistinctIds-filter p t hs in
    elim (Bool-cases (p q)) [
      | inl fits ↦ rw fits (All-ne-filter p q.id t h, rest)
      | inr not_it ↦ rw not_it rest
    ]

pub length-filter : (p : RunRow → Bool) (t : Table) → length (filter p t) ≡ count p t
length-filter p [] = refl
length-filter p (q ∷ t) = ground (arith, length-filter p t)

abbrev pub people : ℕ → Option RunStartedBy
people u = if u == 7 then some (record { id = 7; email = "ann@example.org"; role = user }) else none

-- A client in memory.
abbrev pub client : PrismaClient
client = record {
  find_unique = λ id t. find (has_id id) t;
  find_first = oldest;
  find_many = filter;
  update_many = λ p f t. (update_where p f t, count p t);
  update =
      λ id f t. if is_some (find (has_id id) t) then some (update_where (has_id id) f t) else none;
  create = λ r t. some (r ∷ t);
  count_rows = count;
  started_by = people;
  find_unique_lem = λ id t. refl;
  find_first-none = oldest-none;
  find_first-some = oldest-some;
  find_many-sound = filter_sound;
  find_many-distinct = DistinctIds-filter;
  find_many-length = length-filter;
  find_many-complete = filter_complete;
  update_many_lem = λ p f t. refl;
  update_lem = λ id f t. refl;
  create_lem = λ r t u e. ground arith;
  count_rows_lem = λ p t. refl;
}

-- A Redis that rejects nothing.
abbrev pub redis : RedisClient
redis = record {
  incr = λ k c. some (with_value k (increment (c k)) c);
  decr = λ k c. some (with_value k (decrement (c k)) c);
  pexpire = λ k ms c. some c;
  incr_lem = λ k c d e. ground arith;
  decr_lem = λ k c d e. ground arith;
  pexpire_lem = λ k ms c d e. ground arith;
}

abbrev pub env : Env
env = record {
  demo_mode = true;
  guest_global_cap_per_day = 2;
  guest_rating_cap_per_day = 3;
  review_ttl = 100;
  max_concurrent_runs = 2;
}

abbrev pub ann : AuthUserContext
ann = record { id = 7; role = user }

abbrev pub bob : AuthUserContext
bob = record { id = 8; role = guest }

abbrev pub sample_brief : Brief
sample_brief = record {
  topic = "Winter tyres";
  audience = none;
  goal = none;
  idea_count = none;
  angle = none;
  target_length = none;
}

-- A run of Ann's.
abbrev pub sample : ℕ → RunStatus → RunRow
sample id s = record {
  id = id;
  conversation_id = 90;
  task_type = page_outline_then_copy;
  platform = web;
  content_kind = some blog;
  language = en;
  pipeline_phase = none;
  ideas_refine_count = 0;
  content_refine_count = 0;
  outline_refine_count = 0;
  copy_refine_count = 0;
  status = s;
  brief = sample_brief;
  selected_idea_ids = none;
  started_by_user_id = some 7;
  recovery_attempts = 0;
  cancel_requested = false;
  created_at = 10 + id;
  user_rating = none;
  output_edited = false;
  review_finalized_at = none;
  pipeline_finished_at = none;
  cancelled_at = none;
}

abbrev pub waiting_run : RunRow
waiting_run = sample 1 awaiting_hitl

abbrev pub queued_run : RunRow
queued_run = sample 2 queued

abbrev pub running_run : RunRow
running_run = sample 3 running

abbrev pub exhausted_run : RunRow
exhausted_run = record (sample 4 running) { recovery_attempts = 3 }

abbrev pub leftover_run : RunRow
leftover_run = record (sample 5 running) { cancel_requested = true }

abbrev pub finished_run : RunRow
finished_run = record (sample 6 completed) { pipeline_finished_at = some 100 }

abbrev pub locked_run : RunRow
locked_run = record (sample 7 completed) {
  pipeline_finished_at = some 50;
  review_finalized_at = some 120;
}

abbrev pub table : Table
table =
    waiting_run ∷ queued_run ∷ running_run ∷ exhausted_run ∷ leftover_run ∷ finished_run
    ∷ locked_run ∷ []

abbrev pub world : World
world = record {
  table = table;
  logs = [];
  hub_calls = [];
  notices = [];
  registry = record { controllers = (3, 0) ∷ []; aborted = λ c. false; next = 1 };
  quota = λ k. pos 0;
}

pub table-DistinctIds : DistinctIds table
table-DistinctIds = ground arith

pub table-readable : All (λ r. is_readable r ≡ true) table
table-readable = ground arith

abbrev pub cancelled_run : RunRow
cancelled_run = record (sample 3 cancelled) { cancelled_at = some 60 }

-- Ann's run as it is read.
abbrev pub snapshot : RunRow → RunSnapshot
snapshot r = record {
  run = r;
  started_by = some (record { id = 7; email = "ann@example.org"; role = user });
}
