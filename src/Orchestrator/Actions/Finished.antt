-- ===== src/Orchestrator/Actions/Finished.antt =====
-- What `finish_terminal` of orchestrator/actions.py leaves behind, on each of its outcomes.
use issuebot.Prelude.{ℕ, String, Option, none, some, List, [], ◌∷◌, true, ◌≡◌}
use issuebot.GitHub.Models.{Issue, StateLabel}
use issuebot.GitHub.State.{ClosedOutcome, same_state}
use issuebot.GitHub.Adapter.{Result, ok, err, GitHubAdapter}
use issuebot.Events.{Event, CompletionResolution}
use issuebot.Events.Bus.{EventBus}
use issuebot.Orchestrator.Actions.{World, label_moved}
use issuebot.Orchestrator.Actions.Finish.{
  FinishOutcome, complete, no_change, cancelled, unchanged, failed, Workspaces, completed_by,
  cancelled_by,
}
use issuebot.Orchestrator.Actions.Effects.{heard, MovesStates}

module _ {S G : Type 0} (a : GitHubAdapter (World S G)) (role : ℕ → G → Option StateLabel)
    (laws : MovesStates a role) (issue : Issue) where
  state_after : ClosedOutcome → Option StateLabel
  state_after ClosedOutcome.cancelled = none
  state_after _ = some StateLabel.complete

  events_after : ClosedOutcome → List Event
  events_after ClosedOutcome.completed =
      label_moved issue (some a.labels.complete)
      ∷ completed_by issue CompletionResolution.merged_pr
      ∷ []
  events_after ClosedOutcome.no_change =
      label_moved issue (some a.labels.complete)
      ∷ completed_by issue CompletionResolution.no_change
      ∷ []
  events_after ClosedOutcome.cancelled = label_moved issue none ∷ cancelled_by issue ∷ []

  -- The state of the issue and the events, by the outcome. It never raises.
  abbrev pub Finished : Result FinishOutcome → EventBus S × S → World S G → Type 0
  Finished (ok complete) bus v =
      (role issue.number v.1 ≡ some StateLabel.complete)
      × (v.0
          ≡ heard
              (label_moved issue (some a.labels.complete)
                ∷ completed_by issue CompletionResolution.merged_pr
                ∷ [])
              bus)
  Finished (ok no_change) bus v =
      (role issue.number v.1 ≡ some StateLabel.complete)
      × (v.0
          ≡ heard
              (label_moved issue (some a.labels.complete)
                ∷ completed_by issue CompletionResolution.no_change
                ∷ [])
              bus)
  Finished (ok cancelled) bus v =
      (role issue.number v.1 ≡ none)
      × (v.0 ≡ heard (label_moved issue none ∷ cancelled_by issue ∷ []) bus)
  Finished (ok unchanged) bus v =
      (same_state issue.state (some StateLabel.complete) ≡ true) × (v.0 ≡ bus)
  Finished (ok failed) bus v = v.0 ≡ bus
  Finished (err _) bus v = ⊥

  -- What a branch under `try` leaves: the state and the events, or no event where it raises.
  Wrote : Option StateLabel → List Event → Result (Unit {0}) → EventBus S × S → World S G → Type 0
  Wrote state events (ok _) bus v = (role issue.number v.1 ≡ state) × (v.0 ≡ heard events bus)
  Wrote state events (err _) bus v = v.0 ≡ bus

  -- Marking and removing a workspace is no event and moves no label.
  pub record LeavesBoard (workspaces : Workspaces (World S G)) : Type 0 where
    pub marks :
        (identifier : String) (w : World S G) → (workspaces.mark_finished identifier w).0 ≡ w.0
    pub removes : (identifier : String) (w : World S G) → (workspaces.remove identifier w).1.0 ≡ w.0
    pub removes_role :
        (identifier : String) (w : World S G)
        → role issue.number (workspaces.remove identifier w).1.1 ≡ role issue.number w.1
