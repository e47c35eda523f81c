-- ===== src/Runs/Review/Sweep.antt =====
-- The sweep that locks the reviews whose window has closed.
use mathlib.Core.Option
use content_chain.Prelude.{
  ℕ, ◌+◌, ◌≡◌, refl, ap, ◌⊎◌, inl, inr, true, not, List, [], ◌∷◌, none, some, arith, if◌then◌else◌,
  ◌==◌, ==_iff, Bool-cases, Option-cases, is_some, get_or, count, length, All, All-Has, All-of_Has,
  Has,
}
use content_chain.Shared.Exception.{returned}
use content_chain.Shared.Actor.{Env}
use content_chain.Guest.Quota.{RedisClient}
use content_chain.Runs.Record.{RunRow, Table}
use content_chain.Runs.Prisma.{PrismaClient, DistinctIds}
use content_chain.Runs.Rows.{
  row, row_of_Has, row-at_key, count-has_id, at_key, DistinctIds-update_where,
}
use content_chain.Runs.Repository.{
  set_finalized, is_unfinalized, is_expired, finalize_rows, finalize_expired_reviews,
}
use content_chain.Runs.Loops.{row-find_many, row-none}
use content_chain.Runs.World.{World}
use content_chain.Runs.Review.{is_review_window_open, auto_finalize_expired_reviews}

-- The review is locked as of the moment at which its window closed.
abbrev pub swept : ℕ → RunRow → RunRow
swept ttl r = set_finalized (get_or r.pipeline_finished_at 0 + ttl) r

module _ (db : PrismaClient) (now ttl : ℕ) where
  abbrev one_swept : RunRow → Table → Table
  one_swept r t =
      at_key r.id (λ x. not (is_some x.review_finalized_at))
        (set_finalized (get_or r.pipeline_finished_at 0 + ttl)) t

  finalize_rows-cons :
      (r : RunRow) (rs : List RunRow) (t : Table) (n : ℕ)
      → is_expired now ttl r ≡ true
      → row r.id t ≡ some r
      → DistinctIds t
      → finalize_rows db ttl (r ∷ rs) t n ≡ finalize_rows db ttl rs (one_swept r t) (n + 1)
  unfolding finalize_rows
  finalize_rows-cons r rs t n h e d = elim (Option-cases r.pipeline_finished_at) [
    | inl never ↦ ground arith
    | inr (at, ended) ↦
        let law = db.update_many_lem (is_unfinalized r.id) (set_finalized (at + ttl)) t in
        let one = count-has_id (λ x. not (is_some x.review_finalized_at)) r.id t r d e in
        ground (arith, law, one)
  ]

  row-finalize_rows :
      (rs : List RunRow) (t : Table) (n : ℕ)
      → DistinctIds t
      → DistinctIds rs
      → All (λ r. is_expired now ttl r ≡ true) rs
      → All (λ r. row r.id t ≡ some r) rs
      → let (locked, t') = finalize_rows db ttl rs t n in
        (locked ≡ n + length rs)
        × ((j : ℕ)
            → row j t' ≡ (if is_some (row j rs) then Option.map (swept ttl) (row j t) else row j t))
  unfolding finalize_rows
  row-finalize_rows [] t n d ds h k = (ground arith, λ j. refl)
  row-finalize_rows (r ∷ rs) t n d (dr, ds) (h, hs) (k, ks) =
      let rows = λ (j : ℕ).
        row-at_key r.id (λ x. not (is_some x.review_finalized_at))
          (set_finalized (get_or r.pipeline_finished_at 0 + ttl)) (λ x. refl) j t in
      let kept : All (λ q. row q.id (one_swept r t) ≡ some q) rs = All-of_Has _ rs (λ q in_rs.
        let ne = All-Has _ rs q dr in_rs in
        let same = All-Has _ rs q ks in_rs in ground (arith, rows q.id, ==_iff q.id r.id)) in
      let distinct = DistinctIds-update_where (is_unfinalized r.id) _ (λ x. refl) t d in
      let (total, rest) = row-finalize_rows rs (one_swept r t) (n + 1) distinct ds hs kept in
      rw (finalize_rows-cons r rs t n h k d) (
        ground arith,
        λ j. elim (Bool-cases (j == r.id)) [
          | inl hit ↦ ground (arith, rest j, rows j, row-none r.id rs dr, ==_iff j r.id)
          | inr miss ↦ ground (arith, rest j, rows j, ==_iff j r.id)
        ],
      )

abbrev pub swept_if_expired : ℕ → ℕ → RunRow → RunRow
swept_if_expired now ttl r = if is_expired now ttl r then swept ttl r else r

module _ (db : PrismaClient) (redis : RedisClient) (env : Env) (now : ℕ) (w : World) where
  pub auto_finalize_expired_reviews_lem :
      DistinctIds w.table
      → let (o, w') = auto_finalize_expired_reviews db redis env now w in
        (o ≡ returned (count (is_expired now env.review_ttl) w.table))
        × ((j : ℕ)
            → row j w'.table ≡ Option.map (swept_if_expired now env.review_ttl) (row j w.table))
  unfolding auto_finalize_expired_reviews finalize_expired_reviews
  auto_finalize_expired_reviews_lem d =
      let p = is_expired now env.review_ttl in
      let rs = db.find_many p w.table in
      let sound = λ (r : RunRow) (m : Has r rs). db.find_many-sound p w.table r m in
      let (total, rows) =
        row-finalize_rows db now env.review_ttl rs w.table 0 d (db.find_many-distinct p w.table d)
          (All-of_Has _ rs (λ r h. (sound r h).1))
          (All-of_Has _ rs (λ r h. row_of_Has w.table r d (sound r h).0)) in
      (
        ap returned (omega (arith, total, db.find_many-length p w.table)),
        λ j. ground (arith, rows j, row-find_many db p w.table j d),
      )

  -- With distinct keys, after the sweep a review that is not finalized belongs to a run whose
  -- pipeline has not ended or whose window is still open.
  pub auto_finalize-open :
      (j : ℕ) (r : RunRow)
      → DistinctIds w.table
      → row j (auto_finalize_expired_reviews db redis env now w).1.table ≡ some r
      → r.review_finalized_at ≡ none
      → (r.pipeline_finished_at ≡ none)
        ⊎ (is_review_window_open r.pipeline_finished_at r.review_finalized_at now env.review_ttl
            ≡ true)
  unfolding is_review_window_open
  auto_finalize-open j r d e open_review =
      let (_, rows) = auto_finalize_expired_reviews_lem d in
      elim (Option-cases r.pipeline_finished_at) [
        | inl never ↦ inl never
        | inr (at, ended) ↦ inr (elim (Option-cases (row j w.table)) [
          | inl missing ↦ ground (arith, rows j)
          | inr (q, stored) ↦ ground (arith, rows j)
        ])
      ]
