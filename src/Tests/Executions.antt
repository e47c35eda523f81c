-- ===== src/Tests/Executions.antt =====
-- The worker and the executors, on a page run and on a run that writes posts for two ideas.
use Prim.Native.String.{String}
use content_chain.Prelude.{ℕ, ◌+◌, ◌≡◌, refl, ◌↔◌, true, false, [], ◌∷◌, none, some, leb, is_some}
use content_chain.Shared.Enums.{running, post_ideas_then_content, linkedin, blog}
use content_chain.Shared.Exception.{DomainException, returned, rejected}
use content_chain.Runs.Record.{RunRow}
use content_chain.Runs.Repository.{set_selected}
use content_chain.Runs.ResumeHitl.{is_outline_selection}
use content_chain.Runs.World.{World}
use content_chain.Runs.Worker.Execution.{RunExecutor, execute_claimed, execute_via_executor}
use content_chain.Runs.Worker.Execution.Laws.{Handed, execute_via_executor-Handed}
use content_chain.Content.Types.{copy_phase, PageOutline}
use content_chain.Content.Executor.{go_on, plan, execute}
use content_chain.Content.Executor.Laws.{EndsSome, execute_ends}
use content_chain.Content.Executor.Claimed.{run_executor, Settles, claimed_page_run-Settles}
use content_chain.Content.Executor.Resumed.{plan-is_outline_selection}
use content_chain.Social.Types.{content_phase, SocialIdea, SocialResults, IssueTests}
use content_chain.Social.Graph.{SocialServices}
use content_chain.Social.Graph.Walk.{invoke_graph}
use content_chain.Social.Graph.Ends.{invoke_graph_ends}
use content_chain.Social.Facade.{base_input, invoke_social_phase}
use content_chain.Social.Facade.Laws.{Staged, invoke_social_phase-Staged}
use content_chain.Social.Executor.{execute_social, extras_of}
use content_chain.Social.Executor.Laws.{SocialEnds, execute_social_ends}
use content_chain.Tests.Samples.{client, sample, running_run, world}
use content_chain.Tests.Pages.{services, empty_results}

abbrev quiet : DomainException → String
quiet e = "failed"

-- Executors for the other kind of run, and one that throws.
abbrev idle_executor : {H : Type 0} → RunExecutor H
idle_executor run signal job = some (returned tt, job)

abbrev throwing_executor : RunExecutor ℕ
throwing_executor run signal job = some (rejected, job)

execute_ends_example :
    EndsSome client services
      (λ n. false)
      quiet
      500
      running_run
      running_run
      0
      world
      refl
      refl
      (execute client services (λ n. false) quiet 500 running_run ((empty_results, 0), world))
execute_ends_example =
    execute_ends client services (λ n. false) quiet 500 running_run running_run 0 world refl refl
      empty_results refl

claimed_page_run-Settles_example :
    Settles client services
      (λ ref n. false)
      quiet
      500
      idle_executor
      running_run
      running_run
      empty_results
      0
      world
      refl
      refl
      (execute_claimed client 500 running_run
        (run_executor client services (λ ref n. false) quiet 500 idle_executor)
        ((empty_results, 0), world))
claimed_page_run-Settles_example =
    claimed_page_run-Settles client services (λ ref n. false) quiet 500 idle_executor running_run
      running_run empty_results 0 world refl refl refl refl refl

execute_via_executor-Handed_example :
    Handed client 500 running_run
      (
        rejected,
        (0, record world { registry = record world.registry { controllers = (3, 0) ∷ [] } }),
      )
      (execute_via_executor client 500 running_run throwing_executor (0, world))
execute_via_executor-Handed_example =
    execute_via_executor-Handed client 500 running_run throwing_executor 0 world _ refl

abbrev drawn : PageOutline
drawn = record { id = 40; title = "Tyres"; sections = [] }

plan-is_outline_selection_example : (is_outline_selection 40 (40 ∷ []) ≡ true) ↔ (
    plan (set_selected (40 ∷ []) running_run) (record empty_results { outline = some drawn })
    ≡ go_on blog copy_phase)
plan-is_outline_selection_example =
    plan-is_outline_selection running_run blog drawn (record empty_results { outline = some drawn })
      (40 ∷ []) refl refl refl

abbrev idea : ℕ → SocialIdea
idea n = record { id = n; title = "Tyres"; angle = "Safety"; hook = "Ice"; cta = none }

abbrev tests : IssueTests
tests = record {
  trim = λ s. s;
  is_empty = λ s. false;
  pass_note = λ s. false;
  reject_phrase = λ s. true;
}

-- A verifier that finds fault with the first draft.
abbrev social_services : SocialServices ℕ ℕ
social_services = record {
  load_company = λ audience n. (returned 0, n);
  tests = tests;
  new_id = λ n. (n, n);
  ideation = λ s n. (returned [], n);
  reel_ideation = λ s n. (returned [], n);
  post_writer =
      λ s given n. (returned (record { body = 66 ∷ 117 ∷ 121 ∷ []; hashtags = []; cta = none }), n);
  script_writer = λ s given n. (returned (record { segments = []; cta = "Buy"; notes = none }), n);
  verifier =
      λ s n. (returned (record { ok = leb 1 n; context_issues = []; language_issues = [] }), n + 1);
  refine_ideas = λ s n. (returned [], n);
  refine_reel_ideas = λ s n. (returned [], n);
  refine_post =
      λ s n. (returned (record { body = 66 ∷ 117 ∷ 121 ∷ []; hashtags = []; cta = none }), n);
  refine_script = λ s n. (returned (record { segments = []; cta = "Buy"; notes = none }), n);
  append_log = λ s v coerced n. (returned tt, n);
  logged = λ n. [];
  write = λ n. (returned tt, n);
}

abbrev posts_run : RunRow
posts_run = record (sample 3 running) {
  task_type = post_ideas_then_content;
  platform = linkedin;
  content_kind = none;
  selected_idea_ids = some (1 ∷ 2 ∷ []);
}

abbrev two_ideas : SocialResults
two_ideas = record {
  ideas = idea 1 ∷ idea 2 ∷ [];
  reel_ideas = [];
  contents = [];
  reel_scripts = [];
  pipeline = record { phase = none; ideas_refine_count = 0; content_refine_count = 0 };
}

abbrev posts_world : World
posts_world = record world { table = posts_run ∷ [] }

invoke_graph_ends_example :
    is_some (
      invoke_graph social_services 3
        (base_input posts_run content_phase (extras_of two_ideas) (some (1 ∷ [])))
        (two_ideas, 0))
    ≡ true
invoke_graph_ends_example =
    invoke_graph_ends social_services
      (base_input posts_run content_phase (extras_of two_ideas) (some (1 ∷ []))) (two_ideas, 0)

invoke_social_phase-Staged_example :
    Staged social_services posts_run (extras_of two_ideas) false refl refl two_ideas (1 ∷ 2 ∷ []) (
      invoke_social_phase social_services posts_run content_phase
        (extras_of two_ideas)
        (two_ideas, 0))
invoke_social_phase-Staged_example =
    invoke_social_phase-Staged social_services posts_run (extras_of two_ideas) false refl refl
      two_ideas 0 1 (2 ∷ []) refl refl refl

execute_social_ends_example :
    SocialEnds client social_services
      (λ n. false)
      quiet
      (λ n. "2")
      500
      posts_run
      posts_run
      two_ideas
      0
      posts_world
      refl
      refl
      false
      refl
      refl
      1
      (2 ∷ [])
      refl
      (execute_social client social_services
        (λ n. false)
        quiet
        (λ n. "2")
        500
        posts_run
        ((two_ideas, 0), posts_world))
execute_social_ends_example =
    execute_social_ends client social_services (λ n. false) quiet (λ n. "2") 500 posts_run posts_run
      two_ideas 0 posts_world refl refl false refl refl 1 (2 ∷ []) refl refl refl
