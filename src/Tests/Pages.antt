-- ===== src/Tests/Pages.antt =====
-- The graph of a page, with models that give the same answers every time.
use content_chain.Prelude.{ℕ, ◌+◌, ◌≡◌, refl, true, [], none, some, arith, leb, is_some}
use content_chain.Shared.Enums.{page_copy, blog, en}
use content_chain.Shared.Exception.{returned}
use content_chain.Content.Types.{
  copy_phase, PageDocument, VerifierVerdict, ContentResults, ContentGraphState, can_refine,
  next_refine_count,
}
use content_chain.Content.Graph.{
  Services, verify, refine_document_node, save_pipeline_state, persist_document_node,
}
use content_chain.Content.Graph.Walk.{invoke, run_from_verifier, route_after_consistency_verifier}
use content_chain.Content.Graph.Ends.{invoke_ends}
use content_chain.Content.Graph.Stores.{Verified, Ended}
use content_chain.Content.Graph.Loop.{invoke-Verified}
use content_chain.Tests.Samples.{sample_brief}

abbrev pub page : PageDocument
page = record {
  title = "Tyres";
  lead = "Winter is near.";
  body = "Buy tyres.";
  meta_title = none;
  meta_description = none;
}

-- The verdict is ok from the second verification on; the services count those.
abbrev pub verdict_at : ℕ → VerifierVerdict
verdict_at n = record { ok = leb 1 n; context_issues = []; language_issues = [] }

abbrev pub services : Services ℕ ℕ
services = record {
  load_company = λ audience n. (returned 0, n);
  trim = λ s. s;
  new_id = λ n. (n, n);
  outline_agent = λ s n. (returned (record { title = "Tyres"; sections = [] }), n);
  page_writer = λ s n. (returned page, n);
  verifier = λ s n. (returned (verdict_at n), n + 1);
  refine_outline_agent = λ s n. (returned (record { title = "Tyres"; sections = [] }), n);
  refine_document_agent = λ s n. (returned page, n);
  append_log = λ s v n. (returned tt, n);
  logged = λ n. [];
  write = λ n. (returned tt, n);
}

abbrev state : ContentGraphState ℕ
state = record {
  task_type = page_copy;
  content_kind = blog;
  language = en;
  brief = sample_brief;
  phase = copy_phase;
  company = none;
  outline = none;
  document = none;
  verdict = none;
  outline_refine_count = 0;
  copy_refine_count = 0;
  failed_code = none;
  failed_message = none;
}

abbrev pub empty_results : ContentResults
empty_results = record {
  outline = none;
  document = none;
  pipeline = record { phase = none; outline_refine_count = 0; copy_refine_count = 0 };
}

abbrev written_results : ContentResults
written_results = record {
  outline = none;
  document = some (page, verdict_at 1);
  pipeline = record { phase = some copy_phase; outline_refine_count = 0; copy_refine_count = 1 };
}

abbrev final_state : ContentGraphState ℕ
final_state = record state {
  company = some 0;
  document = some page;
  verdict = some (verdict_at 1);
  copy_refine_count = 1;
}

invoke_ends_example : is_some (invoke services 3 state (empty_results, 0)) ≡ true
invoke_ends_example = invoke_ends services state (empty_results, 0)

invoke-Verified_example :
    Verified empty_results written_results
    × ((s : ContentGraphState ℕ)
        → returned final_state ≡ returned s
        → Ended empty_results s written_results)
unfolding invoke run_from_verifier verify route_after_consistency_verifier can_refine
    refine_document_node next_refine_count save_pipeline_state persist_document_node
invoke-Verified_example =
    invoke-Verified services 3 state (empty_results, 0) (returned final_state) (written_results, 2)
      refl (omega arith) refl
