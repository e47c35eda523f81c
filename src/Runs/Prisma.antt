-- ===== src/Runs/Prisma.antt =====
-- The database client (Prisma) as the adapters of apps/api call it: an interface with the laws that
-- its documentation gives, over the rows of the table `Run`.
use content_chain.Prelude.{
  ℕ, ◌≤◌, ◌≡◌, ◌≢◌, Bool, true, false, List, [], ◌∷◌, map, Option, none, some, if◌then◌else◌, ◌==◌,
  find, count, length, Has, All, is_some,
}
use content_chain.Runs.Record.{RunRow, Table, RunStartedBy}

abbrev pub update_where : (RunRow → Bool) → (RunRow → RunRow) → Table → Table
update_where w f = map (λ r. if w r then f r else r)

abbrev pub has_id : ℕ → RunRow → Bool
has_id id r = r.id == id

-- The primary key.
abbrev pub DistinctIds : Table → Type 0
DistinctIds [] = Unit
DistinctIds (r ∷ t) = All (λ s. s.id ≢ r.id) t × DistinctIds t

pub record PrismaClient : Type 0 where
  -- findUnique on the primary key.
  pub find_unique : ℕ → Table → Option RunRow
  -- findFirst with orderBy createdAt asc.
  pub find_first : (RunRow → Bool) → Table → Option RunRow
  pub find_many : (RunRow → Bool) → Table → List RunRow
  -- updateMany: the new table and the number of rows that were updated.
  pub update_many : (RunRow → Bool) → (RunRow → RunRow) → Table → Table × ℕ
  -- update on the primary key; it rejects a key that no row has, and of a stored row it is taken: a
  -- database that is lost in between is outside the laws.
  pub update : ℕ → (RunRow → RunRow) → Table → Option Table
  -- create may reject.
  pub create : RunRow → Table → Option Table
  pub count_rows : (RunRow → Bool) → Table → ℕ
  -- The relation `startedBy`, over the key of the user.
  pub started_by : ℕ → Option RunStartedBy
  pub find_unique_lem : (id : ℕ) (t : Table) → find_unique id t ≡ find (has_id id) t
  pub find_first-none :
      (w : RunRow → Bool) (t : Table) → find_first w t ≡ none → All (λ r. w r ≡ false) t
  pub find_first-some :
      (w : RunRow → Bool) (t : Table) (r : RunRow)
      → find_first w t ≡ some r
      → Has r t × (w r ≡ true) × All (λ s. w s ≡ true → r.created_at ≤ s.created_at) t
  pub find_many-sound :
      (w : RunRow → Bool) (t : Table) (r : RunRow) → Has r (find_many w t) → Has r t × (w r ≡ true)
  pub find_many-distinct :
      (w : RunRow → Bool) (t : Table) → DistinctIds t → DistinctIds (find_many w t)
  pub find_many-length : (w : RunRow → Bool) (t : Table) → length (find_many w t) ≡ count w t
  pub find_many-complete :
      (w : RunRow → Bool) (t : Table) (r : RunRow) → Has r t → w r ≡ true → Has r (find_many w t)
  pub update_many_lem :
      (w : RunRow → Bool) (f : RunRow → RunRow) (t : Table)
      → update_many w f t ≡ (update_where w f t, count w t)
  pub update_lem :
      (id : ℕ) (f : RunRow → RunRow) (t : Table)
      → update id f t
        ≡ (if is_some (find (has_id id) t) then some (update_where (has_id id) f t) else none)
  pub create_lem : (r : RunRow) (t u : Table) → create r t ≡ some u → u ≡ r ∷ t
  pub count_rows_lem : (w : RunRow → Bool) (t : Table) → count_rows w t ≡ count w t
