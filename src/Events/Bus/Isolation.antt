-- ===== src/Events/Bus/Isolation.antt =====
-- A raising sink of events/bus.py never affects the others, and its failures are counted.
use issuebot.Prelude.{
  ℕ, ◌+◌, String, List, [], ◌∷◌, not, str_eq, ◌&&◌, str_eq_iff, ◌≡◌, refl, arith, if◌then◌else◌,
}
use issuebot.Prelude.Dict.{Dict, set, lookup-set}
use issuebot.Events.{Event}
use issuebot.Events.Bus.{EventSink, EventBus, failures_of, publish_to, publish}

counted_once :
    (failures : Dict ℕ) (raiser name : String)
    → failures_of (set failures raiser (failures_of failures raiser + 1)) name
      ≡ failures_of failures name + (if str_eq raiser name then 1 else 0)
unfolding failures_of
counted_once failures raiser name = ground (
  arith,
  lookup-set failures raiser name (failures_of failures raiser + 1),
  str_eq_iff raiser name,
)

module _ {W : Type 0} where
  -- Every sink handles the event once, in the order of registration, whatever the others do.
  unfoldable pub handled_by_all : Event → List (EventSink W) → W → W
  handled_by_all event [] w = w
  handled_by_all event (sink ∷ sinks) w = handled_by_all event sinks (sink.handle event w).0

  -- How often a sink called `name` raised on the way.
  unfoldable pub times_raised : Event → String → List (EventSink W) → W → ℕ
  times_raised event name [] w = 0
  times_raised event name (sink ∷ sinks) w =
      (if not (sink.handle event w).1 && str_eq sink.name name then 1 else 0)
      + times_raised event name sinks (sink.handle event w).0

  publish_to-handled :
      (event : Event) (sinks : List (EventSink W)) (failures : Dict ℕ) (w : W)
      → (publish_to event sinks failures w).1 ≡ handled_by_all event sinks w
  unfolding publish_to handled_by_all
  publish_to-handled event [] failures w = refl
  publish_to-handled event (sink ∷ sinks) failures w = publish_to-handled event sinks _ _

  publish_to-failures :
      (event : Event) (name : String) (sinks : List (EventSink W)) (failures : Dict ℕ) (w : W)
      → failures_of (publish_to event sinks failures w).0 name
        ≡ failures_of failures name + times_raised event name sinks w
  unfolding publish_to times_raised
  publish_to-failures event name [] failures w = omega arith
  publish_to-failures event name (sink ∷ sinks) failures w =
      let ok = (sink.handle event w).1 in
      let w' = (sink.handle event w).0 in
      let more = set failures sink.name (failures_of failures sink.name + 1) in
      ground (
        arith,
        publish_to-failures event name sinks more w',
        publish_to-failures event name sinks failures w',
        counted_once failures sink.name name,
      )

  -- Publishing an event hands it to every sink once, in order, whichever of them raise, and counts
  -- each raise under the name of its sink and nowhere else.
  pub publish_isolated :
      (b : EventBus W) (event : Event) (w : W)
      → ((publish b event w).1 ≡ handled_by_all event b.sinks w)
        × ((publish b event w).0.sinks ≡ b.sinks)
        × ((name : String)
            → failures_of (publish b event w).0.failures name
              ≡ failures_of b.failures name + times_raised event name b.sinks w)
  unfolding publish
  publish_isolated b event w = (
    publish_to-handled event b.sinks b.failures w,
    refl,
    λ name. publish_to-failures event name b.sinks b.failures w,
  )
