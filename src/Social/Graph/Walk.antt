-- ===== src/Social/Graph/Walk.antt =====
-- apps/api/src/social/infrastructure/graph/social.graph.ts: the edges from node to node.
use content_chain.Prelude.{
  ℕ, zero, suc, Bool, true, false, Option, none, some, if◌then◌else◌, is_some,
}
use content_chain.Shared.Exception.{returned, thrown}
use content_chain.Content.Types.{can_refine}
use content_chain.Content.Graph.Walk.{is_ok}
use content_chain.Social.Types.{SocialPhase, ideas_phase, content_phase, SocialGraphState}
use content_chain.Social.Graph.{
  SocialServices, Shelf, SocialAnswer, load_context_node, normalize_brief_node, ideation_node,
  content_writer_node,
}
use content_chain.Social.Graph.Nodes.{
  verifier_node, refine_ideas_node, refine_content_node, persist_ideas_node, persist_content_node,
  failed_node,
}

pub data SocialNode : Type 0 where
  to_fail to_persist_content to_persist_ideas to_refine_content to_refine_ideas : SocialNode

abbrev pub is_content : SocialPhase → Bool
is_content content_phase = true
is_content ideas_phase = false

unfoldable pub route_after_verifier : {C : Type 0} → SocialGraphState C → SocialNode
route_after_verifier s =
    if is_some s.failed_code
    then to_fail
    else (if is_ok s.verdict
        then (if is_content s.phase then to_persist_content else to_persist_ideas)
        else (if can_refine
              (if is_content s.phase then s.content_refine_count else s.ideas_refine_count)
            then (if is_content s.phase then to_refine_content else to_refine_ideas)
            else to_fail))

module _ {C W : Type 0} (services : SocialServices C W) where
  abbrev pub Onward : Type 0
  Onward = SocialGraphState C → Shelf services → Option (SocialAnswer services)

  unfoldable pub onward : Onward → SocialAnswer services → Option (SocialAnswer services)
  onward k (returned s, held) = k s held
  onward k (thrown e, held) = some (thrown e, held)

  unfoldable pub visit :
      Onward → SocialNode → SocialGraphState C → Shelf services → Option (SocialAnswer services)
  unfolding onward
  visit k to_fail s held = some (failed_node services s held)
  visit k to_persist_content s held = some (persist_content_node services s held)
  visit k to_persist_ideas s held = some (persist_ideas_node services s held)
  visit k to_refine_content s held = onward k (refine_content_node services s held)
  visit k to_refine_ideas s held = onward k (refine_ideas_node services s held)

  -- From the verifier to the end, on fuel; `none` when it runs out.
  unfoldable pub from_verifier : ℕ → Onward
  unfolding visit onward
  from_verifier zero s held = none
  from_verifier (suc fuel) s held =
      onward (λ s' held'. visit (from_verifier fuel) (route_after_verifier s') s' held')
        (verifier_node services s held)

  unfoldable pub drafted_by :
      SocialPhase → SocialGraphState C → Shelf services → SocialAnswer services
  unfolding ideation_node content_writer_node
  drafted_by content_phase = content_writer_node services
  drafted_by ideas_phase = ideation_node services

  -- `graph.invoke`
  unfoldable pub invoke_graph : ℕ → Onward
  unfolding onward drafted_by load_context_node normalize_brief_node
  invoke_graph fuel s held =
      onward
        (λ s1 held1.
          onward (from_verifier fuel)
            (drafted_by s1.phase (normalize_brief_node services s1) held1))
        (load_context_node services s held)
