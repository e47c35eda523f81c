-- ===== src/Content/Graph/Walk.antt =====
-- apps/api/src/content/infrastructure/graph/content.graph.ts: the edges from node to node.
use content_chain.Prelude.{
  ℕ, zero, suc, Bool, true, false, Option, none, some, if◌then◌else◌, is_some,
}
use content_chain.Shared.Exception.{Outcome, returned, thrown}
use content_chain.Content.Types.{
  ContentPipelinePhase, outline_phase, copy_phase, VerifierVerdict, ContentGraphState, can_refine,
}
use content_chain.Content.Graph.{
  Services, Held, load_context, normalize_brief, outline_agent, page_writer, verify,
  refine_outline_node, refine_document_node, persist_outline_node, persist_document_node,
  fail_run_node,
}

pub data Node : Type 0 where
  fail_run persist_document persist_outline refine_document refine_outline : Node

abbrev pub is_copy : ContentPipelinePhase → Bool
is_copy copy_phase = true
is_copy outline_phase = false

abbrev pub is_ok : Option VerifierVerdict → Bool
is_ok none = false
is_ok (some v) = v.ok

unfoldable pub route_after_consistency_verifier : {C : Type 0} → ContentGraphState C → Node
route_after_consistency_verifier s =
    if is_some s.failed_code
    then fail_run
    else (if is_ok s.verdict
        then (if is_copy s.phase then persist_document else persist_outline)
        else (if can_refine
              (if is_copy s.phase then s.copy_refine_count else s.outline_refine_count)
            then (if is_copy s.phase then refine_document else refine_outline)
            else fail_run))

module _ {C W : Type 0} (services : Services C W) where
  -- The nodes from which an edge leads back to the verifier, with what follows.
  unfoldable pub again :
      (ContentGraphState C → Held services → Option (Outcome (ContentGraphState C) × Held services))
      → Outcome (ContentGraphState C) × Held services
      → Option (Outcome (ContentGraphState C) × Held services)
  again k (returned s, held) = k s held
  again k (thrown e, held) = some (thrown e, held)

  unfoldable pub go_to :
      (ContentGraphState C → Held services → Option (Outcome (ContentGraphState C) × Held services))
      → Node
      → ContentGraphState C
      → Held services
      → Option (Outcome (ContentGraphState C) × Held services)
  unfolding again
  go_to k fail_run s held = some (fail_run_node services s held)
  go_to k persist_document s held = some (persist_document_node services s held)
  go_to k persist_outline s held = some (persist_outline_node services s held)
  go_to k refine_document s held = again k (refine_document_node services s held)
  go_to k refine_outline s held = again k (refine_outline_node services s held)

  unfoldable pub routed :
      (ContentGraphState C → Held services → Option (Outcome (ContentGraphState C) × Held services))
      → Outcome (ContentGraphState C) × Held services
      → Option (Outcome (ContentGraphState C) × Held services)
  unfolding go_to
  routed k (returned s, held) = go_to k (route_after_consistency_verifier s) s held
  routed k (thrown e, held) = some (thrown e, held)

  -- From the verifier to the end, on fuel; `none` when it runs out.
  unfoldable pub run_from_verifier :
      ℕ
      → ContentGraphState C
      → Held services
      → Option (Outcome (ContentGraphState C) × Held services)
  unfolding routed
  run_from_verifier zero s held = none
  run_from_verifier (suc fuel) s held = routed (run_from_verifier fuel) (verify services s held)

  unfoldable pub drafted :
      ContentPipelinePhase
      → ContentGraphState C
      → Held services
      → Outcome (ContentGraphState C) × Held services
  unfolding outline_agent page_writer
  drafted copy_phase = page_writer services
  drafted outline_phase = outline_agent services

  -- `graph.invoke`
  unfoldable pub invoke :
      ℕ
      → ContentGraphState C
      → Held services
      → Option (Outcome (ContentGraphState C) × Held services)
  unfolding drafted load_context normalize_brief again
  invoke fuel s held =
      again
        (λ s1 held1.
          again (run_from_verifier fuel) (drafted s1.phase (normalize_brief services s1) held1))
        (load_context services s held)
