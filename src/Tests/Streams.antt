-- ===== src/Tests/Streams.antt =====
-- A client that follows a run on the hub.
use content_chain.Prelude.{refl, true, List, [], ◌∷◌}
use content_chain.Shared.Enums.{running, completed}
use content_chain.Runs.Status.{can_transition}
use content_chain.Runs.World.{run_status, completes, publishes}
use content_chain.Runs.Lifecycle.{no_extras, transition}
use content_chain.Runs.Hub.{Hub, new_hub, entry, replay}
use content_chain.Runs.Hub.Laws.{
  Act, subscribes, calls, expires, acts, Timed, Told, told, hub_timers, transition-Told,
}
use content_chain.Tests.Samples.{client, running_run, world}

abbrev followed : Hub
followed = record new_hub { subjects = (3, 0) ∷ []; ttl_timers = (3, 0) ∷ []; next_subject = 1 }

transition-Told_example :
    Told 3 0
      (told 3 completed no_extras)
      true
      followed
      (replay (transition client 500 running_run completed no_extras world).1.hub_calls followed)
unfolding can_transition entry replay
transition-Told_example =
    transition-Told client 500 running_run running_run completed no_extras world followed 0 refl
      refl refl

abbrev followed_acts : List Act
followed_acts =
    subscribes 3
    ∷ calls (publishes (run_status 3 running))
    ∷ expires 3 0
    ∷ subscribes 3
    ∷ calls (completes 3)
    ∷ []

hub_timers_example : Timed (acts followed_acts new_hub)
hub_timers_example = hub_timers followed_acts
