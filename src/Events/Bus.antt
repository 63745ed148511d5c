-- ===== src/Events/Bus.antt =====
-- events/bus.py: the event bus. A sink is its name and what its `handle` does to everything outside
-- the bus, `W`; the second component of the result is false where `handle` raises.
pub mod Isolation
pub mod Registry
use issuebot.Prelude.{
  ℕ, ◌+◌, String, Option, none, some, List, [], ◌∷◌, ◌++◌, Bool, true, false, not, any, filter,
  str_eq, if◌then◌else◌,
}
use issuebot.Prelude.Dict.{Dict, lookup, set}
use issuebot.Events.{Event}

pub record EventSink (W : Type 0) : Type 0 where
  pub name : String
  pub handle : Event → W → W × Bool

pub record EventBus (W : Type 0) : Type 0 where
  pub sinks : List (EventSink W)
  pub failures : Dict ℕ

-- `failures.get(name, 0)`
unfoldable pub failures_of : Dict ℕ → String → ℕ
failures_of failures name = elim (lookup failures name) [ none ↦ 0 | some n ↦ n ]

module _ {W : Type 0} where
  -- `none` is the `ValueError` of a name that is registered already.
  unfoldable pub add_sink : EventBus W → EventSink W → Option (EventBus W)
  add_sink b sink =
      if any (λ existing. str_eq existing.name sink.name) b.sinks
      then none
      else some (record b { sinks = b.sinks ++ sink ∷ [] })

  unfoldable pub remove_sink : EventBus W → String → EventBus W
  remove_sink b name = record b { sinks = filter (λ sink. not (str_eq sink.name name)) b.sinks }

  -- The loop of `__init__`.
  unfoldable pub init_from : EventBus W → List (EventSink W) → Option (EventBus W)
  unfolding add_sink
  init_from b [] = some b
  init_from b (sink ∷ sinks) = elim (add_sink b sink) [ none ↦ none | some b' ↦ init_from b' sinks ]

  unfoldable pub init : List (EventSink W) → Option (EventBus W)
  unfolding init_from
  init sinks = init_from (record { sinks = []; failures = [] }) sinks

  -- The loop of `publish`, over the sinks that are left.
  unfoldable pub publish_to : Event → List (EventSink W) → Dict ℕ → W → Dict ℕ × W
  unfolding failures_of
  publish_to event [] failures w = (failures, w)
  publish_to event (sink ∷ sinks) failures w =
      let (w', handled) = sink.handle event w in
      publish_to event sinks
        (if handled then failures else set failures sink.name (failures_of failures sink.name + 1))
        w'

  unfoldable pub publish : EventBus W → Event → W → EventBus W × W
  unfolding publish_to
  publish b event w =
      let (failures, w') = publish_to event b.sinks b.failures w in
      (record b { failures = failures }, w')
