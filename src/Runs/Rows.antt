-- ===== src/Runs/Rows.antt =====
-- How the updates of the adapter act on the row of one run.
use mathlib.Core.Option
use content_chain.Prelude.{
  ℕ, ◌≡◌, refl, ◌≢◌, inl, inr, Bool, ◌&&◌, [], ◌∷◌, Option, none, some, arith, if◌then◌else◌, ◌==◌,
  ==_iff, ==_refl, Bool-cases, find, count, Has, All, All-Has,
}
use content_chain.Runs.Record.{RunRow, Table}
use content_chain.Runs.Prisma.{update_where, has_id, DistinctIds}

-- The row of a run.
abbrev pub row : ℕ → Table → Option RunRow
row id t = find (has_id id) t

abbrev pub KeepsId : (RunRow → RunRow) → Type 0
KeepsId f = (r : RunRow) → (f r).id ≡ r.id

module _ (w : RunRow → Bool) (f : RunRow → RunRow) (keeps : KeepsId f) where
  pub row-update_where :
      (id : ℕ) (t : Table)
      → row id (update_where w f t) ≡ Option.map (λ r. if w r then f r else r) (row id t)
  row-update_where id [] = refl
  row-update_where id (r ∷ t) = ground (arith, keeps r, row-update_where id t)

  All-ne-update_where :
      (id : ℕ) (t : Table) → All (λ s. s.id ≢ id) t → All (λ s. s.id ≢ id) (update_where w f t)
  All-ne-update_where id [] h = tt
  All-ne-update_where id (r ∷ t) (p, h) =
      (λ e. p (ground (arith, keeps r)), All-ne-update_where id t h)

  pub DistinctIds-update_where : (t : Table) → DistinctIds t → DistinctIds (update_where w f t)
  DistinctIds-update_where [] h = tt
  DistinctIds-update_where (r ∷ t) (p, h) = (
    elim (Bool-cases (w r)) [
      | inl e ↦ rw (e, keeps r) (All-ne-update_where r.id t p)
      | inr e ↦ rw e (All-ne-update_where r.id t p)
    ],
    DistinctIds-update_where t h,
  )

module _ (w : RunRow → Bool) where
  count_ne : (id : ℕ) (t : Table) → All (λ s. s.id ≢ id) t → count (λ r. has_id id r && w r) t ≡ 0
  count_ne id [] h = refl
  count_ne id (r ∷ t) (p, h) = ground (arith, count_ne id t h)

  -- With the key's help a conditional update on a key counts one row or none.
  pub count-has_id :
      (id : ℕ) (t : Table) (r : RunRow)
      → DistinctIds t
      → row id t ≡ some r
      → count (λ s. has_id id s && w s) t ≡ (if w r then 1 else 0)
  count-has_id id [] r d e = cc
  count-has_id id (s ∷ t) r (p, d) e = elim (Bool-cases (s.id == id)) [
    | inl hit ↦ ground (arith, count_ne s.id t p, count_ne id t)
    | inr miss ↦ ground (arith, count-has_id id t r d)
  ]

  pub count_missing : (id : ℕ) (t : Table) → row id t ≡ none → count (λ s. has_id id s && w s) t ≡ 0
  count_missing id [] e = refl
  count_missing id (s ∷ t) e = ground (arith, count_missing id t)

pub row-Has : (id : ℕ) (t : Table) (r : RunRow) → row id t ≡ some r → Has r t × (r.id ≡ id)
row-Has id [] r e = cc
row-Has id (s ∷ t) r e = elim (Bool-cases (s.id == id)) [
  | inl hit ↦ (inl (ground arith), ground arith)
  | inr miss ↦ let (m, same) = row-Has id t r (ground arith) in (inr m, same)
]

pub row_of_Has : (t : Table) (r : RunRow) → DistinctIds t → Has r t → row r.id t ≡ some r
row_of_Has [] r d m = elim m [ ]
row_of_Has (s ∷ t) r (p, d) (inl e) = ground (arith, ==_refl r.id)
row_of_Has (s ∷ t) r (p, d) (inr m) =
    let ne = All-Has (λ x. x.id ≢ s.id) t r p m in
    ground (arith, row_of_Has t r d m, ==_iff s.id r.id)

-- An update of the row of one run, on a condition.
abbrev pub at_key : ℕ → (RunRow → Bool) → (RunRow → RunRow) → Table → Table
at_key id q f = update_where (λ r. has_id id r && q r) f

module _ (id : ℕ) (q : RunRow → Bool) (f : RunRow → RunRow) (keeps : KeepsId f) where
  pub row-at_key :
      (j : ℕ) (t : Table)
      → row j (at_key id q f t)
        ≡ (if j == id then Option.map (λ r. if q r then f r else r) (row j t) else row j t)
  row-at_key j [] = ground arith
  row-at_key j (r ∷ t) = ground (arith, keeps r, row-at_key j t)

module _ (id : ℕ) (f : RunRow → RunRow) (keeps : KeepsId f) where
  pub row-update_id :
      (j : ℕ) (t : Table)
      → row j (update_where (has_id id) f t) ≡ (if j == id then Option.map f (row j t) else row j t)
  row-update_id j [] = ground arith
  row-update_id j (r ∷ t) = ground (arith, keeps r, row-update_id j t)
