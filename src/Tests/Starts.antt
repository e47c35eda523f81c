-- ===== src/Tests/Starts.antt =====
-- Starting a run, and going on after a choice.
use content_chain.Prelude.{
  ℕ, ◌≡◌, refl, ◌≢◌, ◌↔◌, true, false, List, [], ◌∷◌, none, some, if◌then◌else◌, ◌==◌, Has, All,
}
use content_chain.Prelude.Int.{pos}
use content_chain.Shared.Enums.{running, queued, failed, page_copy, blog, en}
use content_chain.Shared.Exception.{
  returned, rejected, throw, guest_type_not_allowed, guest_type_quota_exceeded,
}
use content_chain.Guest.Quota.{with_value, runs, try_admit_daily_run, try_incr}
use content_chain.Runs.Record.{RunRow, to_snapshot}
use content_chain.Runs.Prisma.{PrismaClient}
use content_chain.Runs.Rows.{row}
use content_chain.Runs.Repository.{set_status, set_selected, get_by_id, count_by_user_and_type}
use content_chain.Runs.World.{World, publishes, run_status, hitl_resumed, queued_notice}
use content_chain.Runs.StartRun.{StartRunCommand, page_start, new_run, start_run}
use content_chain.Runs.StartRun.Laws.{
  HasStarted, start_run_stores, start_run_refuses_guest, start_run_releases,
}
use content_chain.Runs.ResumeHitl.{
  RunResultReader, is_subset_selection, resume_hitl, check_selection, is_outline_selection,
}
use content_chain.Runs.ResumeHitl.Laws.{NamedOnce, is_subset_selection_iff, resume_hitl_accepted}
use content_chain.Guest.Policy.{assert_guest_owns_run}
use content_chain.Tests.Samples.{
  client, redis, env, ann, bob, sample, sample_brief, waiting_run, table, world, snapshot,
}

-- The outline of every run is the draft 40.
abbrev drafts : RunResultReader
drafts = record {
  list_ideas = λ id. [];
  list_reel_ideas = λ id. [];
  get_page_outline = λ id. some 40;
}

is_subset_selection_example : (is_subset_selection (1 ∷ 2 ∷ []) (2 ∷ []) ≡ true) ↔ (
    (◌≢◌ {A = List ℕ} (2 ∷ []) [])
    × NamedOnce (2 ∷ [])
    × All (λ (x : ℕ). Has x (1 ∷ 2 ∷ [])) (2 ∷ []))
is_subset_selection_example = is_subset_selection_iff (1 ∷ 2 ∷ []) (2 ∷ [])

resume_hitl_accepted_example :
    let (o, w) = resume_hitl client drafts 500 1 (40 ∷ []) ann world in
    (o ≡ returned tt)
    × ((j : ℕ)
        → row j w.table ≡ (
            if j == 1
            then some (set_status running (set_selected (40 ∷ []) waiting_run))
            else row j table))
    × (w.hub_calls ≡ publishes (run_status 1 running) ∷ [])
    × (w.notices ≡ hitl_resumed (set_selected (40 ∷ []) (set_status running waiting_run)) ∷ [])
unfolding get_by_id to_snapshot assert_guest_owns_run check_selection is_outline_selection
resume_hitl_accepted_example =
    resume_hitl_accepted client drafts 500 1 (40 ∷ []) ann world (snapshot waiting_run) refl refl
      waiting_run refl refl refl

abbrev command : StartRunCommand
command = page_start page_copy blog en sample_brief

abbrev started_run : RunRow
started_run = new_run 20 91 500 (some 7) command

start_run_stores_example :
    let (o, w) = start_run client redis env 500 600 20 91 true command (some ann) world in
    (o ≡ returned (record { id = 20; conversation_id = 91; status = queued }))
    × (w.table ≡ started_run ∷ table)
    × (w.notices ≡ queued_notice ∷ [])
    × (w.quota ≡ world.quota)
unfolding new_run
start_run_stores_example =
    start_run_stores client redis env 500 600 20 91 command ann world (started_run ∷ table) refl
      refl refl

-- Bob has started a run of the task before, which has failed.
abbrev bobs_run : RunRow
bobs_run = record (sample 3 failed) { task_type = page_copy; started_by_user_id = some bob.id }

abbrev bobs_world : World
bobs_world = record world { table = bobs_run ∷ [] }

start_run_refuses_guest_example :
    (true ≡ false
      → start_run client redis env 500 600 20 91 true command (some bob) bobs_world
        ≡ (throw guest_type_not_allowed 403, bobs_world))
    × (true ≡ true
        → HasStarted client redis env 500 600 20 91 command bob bobs_world
        → start_run client redis env 500 600 20 91 true command (some bob) bobs_world
          ≡ (throw guest_type_quota_exceeded 403, bobs_world))
start_run_refuses_guest_example =
    start_run_refuses_guest client redis env 500 600 20 91 command bob bobs_world refl

-- A client that can store no new run.
abbrev full : PrismaClient
full = record client { create = λ r t. none; create_lem = λ r t u e. cc }

start_run_releases_example :
    let (o, w) = start_run full redis env 500 600 20 91 true command (some bob) world in
    (o ≡ rejected) × (w.table ≡ table) × (w.notices ≡ []) × (w.quota (runs 0) ≡ pos 0)
unfolding count_by_user_and_type try_admit_daily_run try_incr
start_run_releases_example =
    start_run_releases full redis env 500 600 20 91 command bob world 0
      (with_value (runs 0) (pos 1) world.quota)
      (with_value (runs 0) (pos 0) (with_value (runs 0) (pos 1) world.quota)) refl refl refl refl
      refl refl refl refl
