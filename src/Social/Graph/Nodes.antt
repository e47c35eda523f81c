-- ===== src/Social/Graph/Nodes.antt =====
-- apps/api/src/social/infrastructure/graph/nodes, from the verifier on: the verdict, the refinements,
-- and what is stored at the end.
use content_chain.Prelude.{
  Bool, not, ◌||◌, List, [], ◌∷◌, ◌++◌, Option, some, if◌then◌else◌, length,
}
use content_chain.Shared.Exception.{Outcome, returned, thrown, rejected}
use content_chain.Content.Types.{VerifierVerdict, next_refine_count}
use content_chain.Content.Drafts.{
  join, issue_part, joined_or, context_issues_of, language_issues_of,
}
use content_chain.Social.Types.{
  SocialContent, ReelScript, SocialResults, SocialGraphState, is_reel_task_type,
  is_two_stage_social_task, coerce_pass_note_verdict,
}
use content_chain.Social.Graph.{
  SocialServices, Shelf, SocialAnswer, with_count, numbered_ideas, numbered_reel_ideas, idea_ids,
  reel_idea_ids, post_of, script_of, post_source, script_source, stored_source,
}

-- `appendContent` or `replaceContent`, by whether the task has two stages.
unfoldable pub put {ℓ} : {A : Type ℓ} → Bool → List A → A → List A
put two_stage before a = if two_stage then before ++ (a ∷ []) else a ∷ []

unfoldable pub add_post :
    {C : Type 0}
    → SocialGraphState C
    → SocialContent
    → VerifierVerdict
    → SocialResults
    → SocialResults
unfolding put
add_post s c v r =
    let c' : SocialContent = record c {
      character_count = length c.body;
      source_idea_id = stored_source s c.source_idea_id;
    } in
    record r { contents = put (is_two_stage_social_task s.task_type) r.contents (c', v) }

unfoldable pub add_script :
    {C : Type 0} → SocialGraphState C → ReelScript → VerifierVerdict → SocialResults → SocialResults
unfolding put
add_script s c v r =
    let c' : ReelScript = record c { source_idea_id = stored_source s c.source_idea_id } in
    record r { reel_scripts = put (is_two_stage_social_task s.task_type) r.reel_scripts (c', v) }

module _ {C W : Type 0} (services : SocialServices C W) where
  -- A write or a log entry, after which the state goes on.
  unfoldable pub after_write :
      (SocialResults → SocialResults)
      → SocialGraphState C
      → SocialResults
      → Outcome (Unit {0}) × W
      → SocialAnswer services
  after_write f s store (returned _, w) = (returned s, (f store, w))
  after_write f s store (thrown e, w) = (thrown e, (store, w))

  -- The verdict with whether it was turned; a turned one, and one that is not ok, is logged.
  unfoldable pub with_verdict :
      SocialGraphState C → SocialResults → VerifierVerdict × Bool → W → SocialAnswer services
  unfolding after_write
  with_verdict s store (v, coerced) w =
      let s' : SocialGraphState C = record s { verdict = some v } in
      if coerced || not v.ok
      then after_write (λ r. r) s' store (services.append_log s v coerced w)
      else (returned s', (store, w))

  unfoldable pub judged_by :
      SocialGraphState C → SocialResults → Outcome VerifierVerdict × W → SocialAnswer services
  unfolding with_verdict coerce_pass_note_verdict
  judged_by s store (thrown e, w) = (thrown e, (store, w))
  judged_by s store (returned v, w) =
      with_verdict s store (coerce_pass_note_verdict services.tests v) w

  unfoldable pub verifier_node : SocialGraphState C → Shelf services → SocialAnswer services
  unfolding judged_by
  verifier_node s (store, w) = judged_by s store (services.verifier s w)

  unfoldable pub refine_ideas_node : SocialGraphState C → Shelf services → SocialAnswer services
  unfolding with_count numbered_ideas numbered_reel_ideas
  refine_ideas_node s (store, w) =
      if is_reel_task_type s.task_type
      then with_count services (λ drawn n. record s { reel_ideas = drawn; ideas_refine_count = n })
          store (next_refine_count s.ideas_refine_count)
          (numbered_reel_ideas services (reel_idea_ids s.reel_ideas)
            (services.refine_reel_ideas s w))
      else with_count services (λ drawn n. record s { ideas = drawn; ideas_refine_count = n }) store
          (next_refine_count s.ideas_refine_count)
          (numbered_ideas services (idea_ids s.ideas) (services.refine_ideas s w))

  unfoldable pub refine_content_node : SocialGraphState C → Shelf services → SocialAnswer services
  unfolding with_count
  refine_content_node s (store, w) =
      if is_reel_task_type s.task_type
      then with_count services
          (λ d n. record s {
            reel_script = some (script_of d (script_source s.reel_script));
            content_refine_count = n;
          })
          store (next_refine_count s.content_refine_count) (services.refine_script s w)
      else with_count services
          (λ d n. record s {
            content = some (post_of d (post_source s.content));
            content_refine_count = n;
          })
          store (next_refine_count s.content_refine_count) (services.refine_post s w)

  unfoldable pub persist_ideas_node : SocialGraphState C → Shelf services → SocialAnswer services
  unfolding after_write
  persist_ideas_node s (store, w) =
      let keep = λ (r : SocialResults).
        if is_reel_task_type s.task_type
        then record r { reel_ideas = s.reel_ideas }
        else record r { ideas = s.ideas } in
      after_write keep s store (services.write w)

  unfoldable pub persist_post :
      SocialGraphState C
      → Option SocialContent
      → Option VerifierVerdict
      → Shelf services
      → SocialAnswer services
  unfolding after_write add_post
  persist_post s (some c) (some v) (store, w) =
      after_write (add_post s c v) s store (services.write w)
  persist_post s _ _ held = (rejected, held)

  unfoldable pub persist_script :
      SocialGraphState C
      → Option ReelScript
      → Option VerifierVerdict
      → Shelf services
      → SocialAnswer services
  unfolding after_write add_script
  persist_script s (some c) (some v) (store, w) =
      after_write (add_script s c v) s store (services.write w)
  persist_script s _ _ held = (rejected, held)

  unfoldable pub persist_content_node : SocialGraphState C → Shelf services → SocialAnswer services
  unfolding persist_post persist_script
  persist_content_node s held =
      if is_reel_task_type s.task_type
      then persist_script s s.reel_script s.verdict held
      else persist_post s s.content s.verdict held

  unfoldable pub failed_node : SocialGraphState C → Shelf services → SocialAnswer services
  unfolding join
  failed_node s held = (
    returned (record s {
      failed_code = some "VERIFIER_FAILED";
      failed_message = some (
          joined_or (
            issue_part "contextIssues: " (context_issues_of s.verdict)
              (issue_part "languageIssues: " (language_issues_of s.verdict) [])));
    }),
    held,
  )
