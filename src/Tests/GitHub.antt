-- ===== src/Tests/GitHub.antt =====
-- Tests of the label state machine and of the event bus.
use issuebot.Prelude.{
  ◌+◌, String, none, some, List, [], ◌∷◌, Bool, true, false, ◌≡◌, refl, any, str_eq, ◌||◌,
}
use issuebot.GitHub.Models.{todo, in_progress, review}
use issuebot.GitHub.State.{human, issuebot_actor, agent, is_allowed, next_state_for}
use issuebot.GitHub.State.Machine.{Reach, is_claim, unlabelled, moved, past_queue, Reach-claimed}
use issuebot.Events.{Event, auto_triage_state}
use issuebot.Events.Bus.{EventSink, EventBus, init, publish, failures_of, add_sink, remove_sink}
use issuebot.Events.Bus.Isolation.{handled_by_all, times_raised, publish_isolated}
use issuebot.Events.Bus.Registry.{add-remove_sink}
use issuebot.Tests.Samples.{queued_issue}

claim : is_allowed (some todo) in_progress issuebot_actor ≡ true
unfolding is_allowed
claim = refl

next : next_state_for queued_issue ≡ some in_progress
unfolding next_state_for
next = refl

queued : is_allowed none todo human ≡ true
unfolding is_allowed
queued = refl

handed_over : is_allowed (some in_progress) review agent ≡ true
unfolding is_allowed
handed_over = refl

abbrev in_review : Reach (some review) (
    ((false || is_claim todo human) || is_claim in_progress issuebot_actor)
    || is_claim review agent)
in_review =
    moved review agent (moved in_progress issuebot_actor (moved todo human unlabelled queued) claim)
      handed_over

in_review_past_queue : past_queue (some review) ≡ true
unfolding past_queue
in_review_past_queue = refl

Reach-claimed_example :
    (((false || is_claim todo human) || is_claim in_progress issuebot_actor)
      || is_claim review agent)
    ≡ true
Reach-claimed_example = Reach-claimed in_review in_review_past_queue

-- Two sinks on a list of names: one that raises and one that does not.
abbrev sink : String → Bool → EventSink (List String)
sink name handled = record { name = name; handle = λ event w. (name ∷ w, handled) }

abbrev bus : EventBus (List String)
bus = record {
  sinks = sink "slack" false ∷ sink "recorder" true ∷ [];
  failures = ("slack", 2) ∷ [];
}

abbrev news : Event
news = auto_triage_state (record { auto = true; watermark = 5 })

publish_isolated_example :
    ((publish bus news []).1 ≡ handled_by_all news bus.sinks [])
    × ((publish bus news []).0.sinks ≡ bus.sinks)
    × ((name : String)
        → failures_of (publish bus news []).0.failures name
          ≡ failures_of bus.failures name + times_raised news name bus.sinks [])
publish_isolated_example = publish_isolated bus news []

abbrev fresh_bus : EventBus (List String)
fresh_bus = record { sinks = bus.sinks; failures = [] }

built : init bus.sinks ≡ some fresh_bus
unfolding init any str_eq
built = refl

add-remove_sink_example :
    add_sink (remove_sink bus "slack") (sink "slack" true)
    ≡ some (record bus { sinks = sink "recorder" true ∷ sink "slack" true ∷ [] })
unfolding any str_eq
add-remove_sink_example =
    add-remove_sink [] (sink "recorder" true ∷ []) (sink "slack" false) (sink "slack" true)
      (("slack", 2) ∷ []) (refl, (refl, tt)) refl
