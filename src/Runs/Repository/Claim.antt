-- ===== src/Runs/Repository/Claim.antt =====
-- Claiming the next run.
use content_chain.Prelude.{
  ℕ, ◌≤◌, ◌≡◌, refl, ◌∙◌, ◌⊎◌, inl, inr, Bool, true, false, ◌&&◌, List, [], ◌∷◌, ◌++◌, ap, Option,
  none, some, arith, Option-cases, is_some, count, Has, All,
}
use content_chain.Shared.Enums.{running}
use content_chain.Shared.Exception.{Outcome, returned}
use content_chain.Runs.Status.{can_transition, assert_transition}
use content_chain.Runs.Record.{RunRow, RunSnapshot, Table, to_snapshot}
use content_chain.Runs.Prisma.{PrismaClient, DistinctIds, has_id}
use content_chain.Runs.Rows.{row_of_Has, at_key, DistinctIds-update_where, count-has_id}
use content_chain.Runs.Repository.{
  is_queued, is_resumable, set_status, claimed_snapshot, claim_round, claim_next, claim_next_queued,
  claim_next_interrupted,
}

-- The row that a claim takes: no candidate is older.
abbrev pub IsOldest : (RunRow → Bool) → Table → RunRow → Type 0
IsOldest p t r = Has r t × (p r ≡ true) × All (λ s. p s ≡ true → r.created_at ≤ s.created_at) t

-- A claim that meets no other writer: it finds that there is no candidate, or takes the oldest one.
abbrev pub ClaimsOldest :
    PrismaClient → (RunRow → Bool) → Table → Option (Outcome (Option RunSnapshot)) × Table → Type 0
ClaimsOldest db p t claim =
    ((claim ≡ (some (returned none), t)) × All (λ r. p r ≡ false) t)
    ⊎ ((r : RunRow) × IsOldest p t r
        × (claim ≡ (some (claimed_snapshot db r), at_key r.id p (set_status running) t)))

module _ (db : PrismaClient) (p : RunRow → Bool) where
  settle :
      (later : List (Table → Table)) (t u : Table) (o : Option RunRow)
      (a : Outcome (Option RunSnapshot))
      → db.find_first p t ≡ o
      → claim_round db p (λ v. v) o t ≡ (some a, u)
      → claim_next db p ((λ v. v) ∷ later) t ≡ (some a, u)
  unfolding claim_next
  settle later t u o a e h = ground arith

  round_quiet :
      (t : Table) (r : RunRow)
      → can_transition r.status running ≡ true
      → count (λ s. has_id r.id s && p s) t ≡ 1
      → claim_round db p (λ v. v) (some r) t
        ≡ (some (claimed_snapshot db r), at_key r.id p (set_status running) t)
  unfolding claim_round assert_transition can_transition
  round_quiet t r can one =
      ground (arith, db.update_many_lem (λ s. has_id r.id s && p s) (set_status running) t)

  round_none : (t : Table) → claim_round db p (λ v. v) none t ≡ (some (returned none), t)
  unfolding claim_round
  round_none t = refl

  claim_next_quiet :
      ((r : RunRow) → p r ≡ true → can_transition r.status running ≡ true)
      → (later : List (Table → Table)) (t : Table) → DistinctIds t
      → ClaimsOldest db p t (claim_next db p ((λ v. v) ∷ later) t)
  claim_next_quiet can later t d = elim (Option-cases (db.find_first p t)) [
    | inl e ↦ inl (settle later t t none _ e (round_none t), db.find_first-none p t e)
    | inr (r, e) ↦
        let (stored, fits, oldest) = db.find_first-some p t r e in
        let one = count-has_id p r.id t r d (row_of_Has t r d stored) ∙ rw fits refl in
        inr (
          r,
          (stored, fits, oldest),
          settle later t _ (some r) _ e (round_quiet t r (can r fits) one),
        )
  ]

  -- The claim was made in the last of the rounds that the schedule began with, from `v`; the others
  -- left `u` before the update.
  abbrev pub ClaimedIn : List (Table → Table) → Table → RunSnapshot → Table → Type 0
  ClaimedIn schedule t s t' =
      (before : List (Table → Table)) × (others : Table → Table) × (after : List (Table → Table))
      × (v : Table) × (schedule ≡ before ++ others ∷ after)
      × (claim_next db p before t ≡ (none, v))
      × (count (λ r. has_id s.id r && p r) (others v) ≡ 1)
      × (t' ≡ at_key s.id p (set_status running) (others v))

  claimed_snapshot-id :
      (r : RunRow) (s : RunSnapshot)
      → claimed_snapshot db r ≡ returned (some s)
      → (s.id ≡ r.id) × (s.status ≡ running)
  unfolding claimed_snapshot to_snapshot
  claimed_snapshot-id r s e = (ground arith, ground arith)

  round_sound :
      (others : Table → Table) (o : Option RunRow) (t t' : Table) (s : RunSnapshot)
      → claim_round db p others o t ≡ (some (returned (some s)), t')
      → ((count (λ r. has_id s.id r && p r) (others t) ≡ 1)
          × (t' ≡ at_key s.id p (set_status running) (others t)))
        × (s.status ≡ running)
  unfolding claim_round assert_transition
  round_sound others none t t' s e = cc
  round_sound others (some next) t t' s e =
      let law = db.update_many_lem (λ r. has_id next.id r && p r) (set_status running) (others t) in
      let claimed : claimed_snapshot db next ≡ returned (some s) = ground (arith, law) in
      let (same, moved) = claimed_snapshot-id next s claimed in
      (rw same (ground (arith, law), ground (arith, law)), moved)

  later_round :
      (others : Table → Table) (before : List (Table → Table)) (t v : Table)
      → (claim_round db p others (db.find_first p t) t).0 ≡ none
      → claim_next db p before (claim_round db p others (db.find_first p t) t).1 ≡ (none, v)
      → claim_next db p (others ∷ before) t ≡ (none, v)
  unfolding claim_next
  later_round others before t v again e = ground arith

  claim_next_sound :
      (schedule : List (Table → Table)) (t t' : Table) (s : RunSnapshot)
      → claim_next db p schedule t ≡ (some (returned (some s)), t')
      → ClaimedIn schedule t s t' × (s.status ≡ running)
  unfolding claim_next
  claim_next_sound [] t t' s e = cc
  claim_next_sound (others ∷ later) t t' s e =
      elim (Option-cases (claim_round db p others (db.find_first p t) t).0) [
        | inl again ↦
            let ((before, last, after, v, parts, none_yet, one, made), moved) =
              claim_next_sound later (claim_round db p others (db.find_first p t) t).1 t' s
                (ground arith) in
            (
              (
                others ∷ before,
                last,
                after,
                v,
                ap (λ l. others ∷ l) parts,
                later_round others before t v again none_yet,
                one,
                made,
              ),
              moved,
            )
        | inr (o, done) ↦
            let ((one, made), moved) =
              round_sound others (db.find_first p t) t t' s (ground arith) in
            (([], others, later, t, refl, refl, one, made), moved)
      ]

module _ (db : PrismaClient) (p : RunRow → Bool) where
  DistinctIds-claim_round :
      (others : Table → Table) (o : Option RunRow) (t : Table)
      → ((u : Table) → DistinctIds u → DistinctIds (others u))
      → DistinctIds t
      → DistinctIds (claim_round db p others o t).1
  unfolding claim_round
  DistinctIds-claim_round others none t keep d = d
  DistinctIds-claim_round others (some r) t keep d =
      let law = db.update_many_lem (λ s. has_id r.id s && p s) (set_status running) (others t) in
      let kept =
        DistinctIds-update_where (λ s. has_id r.id s && p s) (set_status running) (λ s. refl)
          (others t) (keep t d) in
      ground (arith, law)

  abbrev answered : Option (Outcome (Option RunSnapshot)) × Table → Bool
  answered c = is_some c.0

  claim_next_answers :
      (can : (r : RunRow) → p r ≡ true → can_transition r.status running ≡ true)
      (noisy : List (Table → Table)) (t : Table)
      → All (λ (f : Table → Table). (u : Table) → DistinctIds u → DistinctIds (f u)) noisy
      → DistinctIds t
      → answered (claim_next db p (noisy ++ (λ v. v) ∷ []) t) ≡ true
  unfolding claim_next
  claim_next_answers can [] t keep d = elim (claim_next_quiet db p can [] t d) [
    | inl (e, _) ↦ ap answered e
    | inr (r, _, e) ↦ ap answered e
  ]
  claim_next_answers can (others ∷ noisy) t (keep, keeps) d =
      elim (Option-cases (claim_round db p others (db.find_first p t) t).0) [
        | inl again ↦ ground (
          arith,
          claim_next_answers can noisy (claim_round db p others (db.find_first p t) t).1 keeps
              (DistinctIds-claim_round others (db.find_first p t) t keep d),
        )
        | inr (o, done) ↦ ground arith
      ]

module _ (db : PrismaClient) where
  -- With distinct keys and no other writer, the claim of a queued run, and that of an interrupted
  -- one with no cancellation asked for, either answers that there is none, and no row is a
  -- candidate, or takes a candidate than which none is older, and sets its status to running, in
  -- that row alone.
  pub claim_next_oldest :
      (later : List (Table → Table)) (t : Table)
      → DistinctIds t
      → ClaimsOldest db is_queued t (claim_next_queued db ((λ v. v) ∷ later) t)
        × ClaimsOldest db is_resumable t (claim_next_interrupted db ((λ v. v) ∷ later) t)
  unfolding claim_next_queued claim_next_interrupted can_transition
  claim_next_oldest later t d = (
    claim_next_quiet db is_queued (λ r h. ground arith) later t d,
    claim_next_quiet db is_resumable (λ r h. ground arith) later t d,
  )

  -- Whatever other clients write between the reads and the updates of a claim, as the schedule has
  -- it round by round: a queued run is handed out in one of the rounds, after rounds that answered
  -- nothing. In the table that the others left just before the update of that round, the run is a
  -- candidate, alone under its key; the claim leaves that table with the run's status at running
  -- and all else the same; and no row under its key is a candidate then.
  pub claim_next_exclusive :
      (schedule : List (Table → Table)) (t t' : Table) (s : RunSnapshot)
      → claim_next_queued db schedule t ≡ (some (returned (some s)), t')
      → ClaimedIn db is_queued schedule t s t'
        × (count (λ r. has_id s.id r && is_queued r) t' ≡ 0)
        × (s.status ≡ running)
  unfolding claim_next_queued
  claim_next_exclusive schedule t t' s e =
      let ((before, others, after, v, parts, none_yet, one, made), moved) =
        claim_next_sound db is_queued schedule t t' s e in
      (
        (before, others, after, v, parts, none_yet, one, made),
        rw made (none_left s.id (others v)),
        moved,
      )
    where
      none_left :
          (id : ℕ) (u : Table)
          → count (λ r. has_id id r && is_queued r) (at_key id is_queued (set_status running) u) ≡ 0
      none_left id [] = refl
      none_left id (r ∷ u) = ground (arith, none_left id u)

  -- The recursion of a claim ends: from distinct keys it answers at the latest in the first round
  -- in which no other client writes, whatever they wrote in the rounds before while the keys stayed
  -- distinct.
  pub claim_next_returns :
      (noisy : List (Table → Table)) (t : Table)
      → All (λ (f : Table → Table). (u : Table) → DistinctIds u → DistinctIds (f u)) noisy
      → DistinctIds t
      → (is_some (claim_next_queued db (noisy ++ (λ v. v) ∷ []) t).0 ≡ true)
        × (is_some (claim_next_interrupted db (noisy ++ (λ v. v) ∷ []) t).0 ≡ true)
  unfolding claim_next_queued claim_next_interrupted can_transition
  claim_next_returns noisy t keep d = (
    claim_next_answers db is_queued (λ r h. ground arith) noisy t keep d,
    claim_next_answers db is_resumable (λ r h. ground arith) noisy t keep d,
  )
