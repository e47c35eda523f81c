-- ===== src/Runs/ResumeHitl/Laws.antt =====
-- When a choice is accepted, and what it does.
use content_chain.Prelude.{
  ℕ, ◌≤◌, ◌≡◌, refl, ap, ◌≢◌, ◌↔◌, ◌⊎◌, inl, inr, true, false, List, [], ◌∷◌, some, arith,
  if◌then◌else◌, ◌==◌, ==_iff, ==_refl, Bool-cases, length, all, includes, Has, All,
}
use content_chain.Shared.Enums.{running, awaiting_hitl, same_status}
use content_chain.Shared.Exception.{DomainException, returned, thrown, hitl_required}
use content_chain.Shared.Actor.{AuthUserContext}
use content_chain.Guest.Policy.{assert_guest_owns_run}
use content_chain.Runs.Status.{can_transition}
use content_chain.Runs.Record.{RunRow, RunSnapshot, to_snapshot}
use content_chain.Runs.Prisma.{PrismaClient, update_where, has_id}
use content_chain.Runs.Rows.{row, row-Has, row-update_id}
use content_chain.Runs.Repository.{get_by_id, save_selected_idea_ids, set_selected, set_status}
use content_chain.Runs.World.{World, publishes, run_status, hitl_resumed}
use content_chain.Runs.Lifecycle.{no_extras}
use content_chain.Runs.Lifecycle.Laws.{transition_legal}
use content_chain.Runs.ResumeHitl.{
  RunResultReader, set_size, is_subset_selection, check_selection, resume_hitl,
}

pub includes_iff : (xs : List ℕ) (a : ℕ) → (includes xs a ≡ true) ↔ Has a xs
includes_iff [] a = (λ e. cc, λ m. elim m [ ])
includes_iff (x ∷ xs) a = ground (arith, includes_iff xs a, ==_iff x a)

all_iff : (ds xs : List ℕ) → (all (includes ds) xs ≡ true) ↔ All (λ x. Has x ds) xs
all_iff ds [] = (λ e. tt, λ h. refl)
all_iff ds (x ∷ xs) = ground (arith, all_iff ds xs, includes_iff ds x)

-- No identifier stands twice.
abbrev pub NamedOnce : List ℕ → Type 0
NamedOnce [] = Unit
NamedOnce (x ∷ xs) = (Has x xs → ⊥) × NamedOnce xs

set_size-le : (xs : List ℕ) → set_size xs ≤ length xs
unfolding set_size
set_size-le [] = omega arith
set_size-le (x ∷ xs) = ground (arith, set_size-le xs)

set_size_iff : (xs : List ℕ) → (set_size xs ≡ length xs) ↔ NamedOnce xs
unfolding set_size
set_size_iff [] = (λ e. tt, λ h. refl)
set_size_iff (x ∷ xs) = ground (arith, set_size-le xs, set_size_iff xs, includes_iff xs x)

-- The choice of ideas is accepted exactly when it is not empty, names no idea twice, and names only
-- ideas of the draft.
pub is_subset_selection_iff :
    (drafts ids : List ℕ)
    → (is_subset_selection drafts ids ≡ true)
      ↔ ((ids ≢ []) × NamedOnce ids × All (λ x. Has x drafts) ids)
unfolding is_subset_selection
is_subset_selection_iff drafts [] = (λ e. cc, λ h. absurd (h.0 refl))
is_subset_selection_iff drafts (x ∷ ids) = ground (
  arith,
  ==_iff (set_size (x ∷ ids)) (length (x ∷ ids)),
  set_size_iff (x ∷ ids),
  all_iff drafts (x ∷ ids),
)

module _ (db : PrismaClient) (results : RunResultReader) (now id : ℕ) (ids : List ℕ)
    (actor : AuthUserContext) (w : World) (s : RunSnapshot)
    (read : get_by_id db id w.table ≡ returned (some s))
    (owns : assert_guest_owns_run actor s.started_by_user_id ≡ returned tt) where
  -- For a run that is found and that the caller may resume: when it does not wait for a choice, or
  -- the check refuses the choice, the resumption throws and changes nothing.
  pub resume_hitl_refused :
      (s.status ≢ awaiting_hitl)
        ⊎ ((y : DomainException) × (check_selection results s.id s.task_type ids ≡ thrown y))
      → (x : DomainException) × (resume_hitl db results now id ids actor w ≡ (thrown x, w))
  unfolding resume_hitl
  resume_hitl_refused (inl h) =
      let other : same_status s.status awaiting_hitl ≡ false = ground arith in
      (record { code = hitl_required; http_status = 409 }, rw (read, owns, other) refl)
  resume_hitl_refused (inr (y, h)) = elim (Bool-cases (same_status s.status awaiting_hitl)) [
    | inl waits ↦ (y, rw (read, owns, waits, h) refl)
    | inr other ↦ (record { code = hitl_required; http_status = 409 }, rw (read, owns, other) refl)
  ]

  module _ (r : RunRow) (stored : row id w.table ≡ some r) where
    same_ids : (s.id ≡ id) × (r.id ≡ id)
    unfolding get_by_id to_snapshot
    same_ids =
        let (_, same) = row-Has id w.table r stored in
        (ground (arith, db.find_unique_lem id w.table), same)

    -- A choice that the check accepts, for a stored run that waits for it and that the caller may
    -- resume: it is stored with the run, the run is running again, no other row changes, the status
    -- is published, and the worker is told of the run.
    pub resume_hitl_accepted :
        s.status ≡ awaiting_hitl
        → check_selection results s.id s.task_type ids ≡ returned tt
        → let (o, w') = resume_hitl db results now id ids actor w in
          (o ≡ returned tt)
          × ((j : ℕ)
              → row j w'.table ≡ (
                  if j == id
                  then some (set_status running (set_selected ids r))
                  else row j w.table))
          × (w'.hub_calls ≡ publishes (run_status id running) ∷ w.hub_calls)
          × (w'.notices ≡ hitl_resumed (set_selected ids (set_status running s.run)) ∷ w.notices)
    unfolding resume_hitl save_selected_idea_ids can_transition
    resume_hitl_accepted waits fine =
        let waits' : same_status s.status awaiting_hitl ≡ true = rw waits refl in
        let law = db.update_lem id (set_selected ids) w.table in
        let w1 : World = record w { table = update_where (has_id id) (set_selected ids) w.table } in
        let rows1 = λ (j : ℕ). row-update_id id (set_selected ids) (λ x. refl) j w.table in
        let stored1 : row s.id w1.table ≡ some (set_selected ids r) =
          rw (same_ids.0, rows1 id, stored, ==_refl id) refl in
        let (done, rows, calls, _, _, notices) =
          transition_legal db now s.run no_extras w1 running _ stored1 (rw waits refl) in
        rw (read, owns, waits', fine, law, stored)
          (rw done (
            refl,
            λ j. ground (arith, rows j, rows1 j, same_ids.0, ==_iff j id),
            rw calls (rw (same_ids.0) refl),
            ap (λ l. hitl_resumed (set_selected ids (set_status running s.run)) ∷ l) notices,
          ))
