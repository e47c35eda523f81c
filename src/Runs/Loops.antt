-- ===== src/Runs/Loops.antt =====
-- Loops over the rows that a query has returned, each round of which writes to the row of its run.
use mathlib.Core.Option
use content_chain.Prelude.{
  ℕ, ◌≡◌, refl, ◌≢◌, inl, inr, Bool, true, false, List, [], ◌∷◌, Option, none, some, arith,
  if◌then◌else◌, ◌==◌, ==_iff, Bool-cases, Option-cases, is_some, All, All-Has, All-of_Has,
}
use content_chain.Shared.Enums.{is_social_task_type}
use content_chain.Shared.Exception.{Outcome, returned}
use content_chain.Runs.Record.{RunRow, Table, RunSnapshot, to_snapshot, to_snapshots, is_readable}
use content_chain.Runs.Prisma.{PrismaClient, DistinctIds}
use content_chain.Runs.Rows.{row, row-Has, row_of_Has}
use content_chain.Runs.World.{World, M, for_each}

-- What a snapshot keeps of its row.
abbrev pub Reads : RunRow → RunSnapshot → Type 0
Reads r s = (s.id ≡ r.id) × (s.status ≡ r.status) × (s.recovery_attempts ≡ r.recovery_attempts)

abbrev pub ReadAll : List RunRow → List RunSnapshot → Type 0
ReadAll [] [] = Unit
ReadAll (r ∷ rs) (s ∷ ss) = Reads r s × ReadAll rs ss
ReadAll _ _ = ⊥

snapshot_of_readable :
    (r : RunRow)
    → is_readable r ≡ true
    → (s : RunSnapshot) × (to_snapshot r none ≡ returned s) × Reads r s
unfolding to_snapshot
snapshot_of_readable r h = (
  record {
    run = if is_social_task_type r.task_type then record r { content_kind = none } else r;
    started_by = none;
  },
  ground arith,
  (ground arith, ground arith, ground arith),
)

pub snapshots_of_readable :
    (rs : List RunRow)
    → All (λ r. is_readable r ≡ true) rs
    → (ss : List RunSnapshot) × (to_snapshots rs ≡ returned ss) × ReadAll rs ss
unfolding to_snapshots
snapshots_of_readable [] h = ([], refl, tt)
snapshots_of_readable (r ∷ rs) (p, h) =
    let (s, e, reads) = snapshot_of_readable r p in
    let (ss, es, all_read) = snapshots_of_readable rs h in
    (s ∷ ss, rw (e, es) refl, (reads, all_read))

pub row-none : (id : ℕ) (t : Table) → All (λ s. s.id ≢ id) t → row id t ≡ none
row-none id [] h = refl
row-none id (r ∷ t) (p, h) = ground (arith, row-none id t h)

abbrev pub meets : (RunRow → Bool) → Option RunRow → Bool
meets p none = false
meets p (some r) = p r

module _ (db : PrismaClient) (p : RunRow → Bool) (t : Table) (j : ℕ) (d : DistinctIds t) where
  found_by_query :
      (r : RunRow) → row j (db.find_many p t) ≡ some r → (row j t ≡ some r) × (p r ≡ true)
  found_by_query r e =
      let (listed, same) = row-Has j (db.find_many p t) r e in
      let (stored, ok) = db.find_many-sound p t r listed in
      (rw (← same) (row_of_Has t r d stored), ok)

  row_in_query : (r : RunRow) → row j t ≡ some r → p r ≡ true → row j (db.find_many p t) ≡ some r
  row_in_query r e ok =
      let (stored, same) = row-Has j t r e in
      rw (← same) (
        row_of_Has (db.find_many p t) r (db.find_many-distinct p t d)
          (db.find_many-complete p t r stored ok))

  -- A query returns the row of a run exactly when the run's row meets the condition.
  pub row-find_many : is_some (row j (db.find_many p t)) ≡ meets p (row j t)
  row-find_many = elim (Option-cases (row j (db.find_many p t))) [
    | inr (r, e) ↦ let (stored, ok) = found_by_query r e in rw (e, stored, ok) refl
    | inl e ↦ elim (Option-cases (row j t)) [
      | inl missing ↦ rw (e, missing) refl
      | inr (r, stored) ↦ ground (arith, row_in_query r stored)
    ]
  ]

-- The effect of a round on the table.
abbrev pub Writes : (RunRow → RunRow) → RunRow → Outcome (Unit {0}) × World → World → Type 0
Writes f r (o, w') w =
    (o ≡ returned tt)
    × ((j : ℕ) → row j w'.table ≡ (if j == r.id then some (f r) else row j w.table))
    × (DistinctIds w.table → DistinctIds w'.table)

module _ (step : RunSnapshot → M (Unit {0})) (f : RunRow → RunRow) (p : RunRow → Bool)
    (round : (r : RunRow) (s : RunSnapshot) (w : World)
      → Reads r s
      → p r ≡ true
      → row r.id w.table ≡ some r
      → Writes f r (step s w) w) where
  pub for_each-Writes :
      (rs : List RunRow) (ss : List RunSnapshot) (w : World)
      → ReadAll rs ss
      → DistinctIds rs
      → All (λ r. p r ≡ true) rs
      → All (λ r. row r.id w.table ≡ some r) rs
      → let (o, w') = for_each step ss w in
        (o ≡ returned tt)
        × ((j : ℕ)
            → row j w'.table
              ≡ (if is_some (row j rs) then Option.map f (row j w.table) else row j w.table))
        × (DistinctIds w.table → DistinctIds w'.table)
  unfolding for_each
  for_each-Writes [] [] w m d h k = (refl, λ j. refl, λ x. x)
  for_each-Writes [] (s ∷ ss) w m d h k = elim m [ ]
  for_each-Writes (r ∷ rs) [] w m d h k = elim m [ ]
  for_each-Writes (r ∷ rs) (s ∷ ss) w (m, ms) (d, ds) (h, hs) (k, ks) =
      let (done, rows, distinct) = round r s w m h k in
      let w1 = (step s w).1 in
      let kept : All (λ q. row q.id w1.table ≡ some q) rs = All-of_Has _ rs (λ q in_rs.
        let ne = All-Has _ rs q d in_rs in
        let same = All-Has _ rs q ks in_rs in ground (arith, rows q.id, ==_iff q.id r.id)) in
      let (done', rows', distinct') = for_each-Writes rs ss w1 ms ds hs kept in
      (
        rw done done',
        λ j. rw done (elim (Bool-cases (j == r.id)) [
          | inl hit ↦ ground (arith, rows' j, rows j, row-none r.id rs d, ==_iff j r.id)
          | inr miss ↦ ground (arith, rows' j, rows j, ==_iff j r.id)
        ]),
        λ x. rw done (distinct' (distinct x)),
      )
