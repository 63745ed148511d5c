-- ===== src/Orchestrator/Actions/Finish.antt =====
-- orchestrator/actions.py: `finish_terminal` and `remove_workspace`. Of agent/workspace.py it takes
-- the two calls that it makes; `none` is an `AgentError`.
use issuebot.Prelude.{String, Option, none, some, Bool, false, if◌then◌else◌}
use issuebot.GitHub.Models.{Issue, StateLabel}
use issuebot.GitHub.State.{ClosedOutcome, classify_closed, same_state}
use issuebot.GitHub.Adapter.{Result, ok, err, Exec, pure, attempt, GitHubAdapter, ◌>>=◌, ◌>>◌}
use issuebot.Events.{Event, issue_completed, issue_cancelled, CompletionResolution}
use issuebot.Orchestrator.Runtime.{pr_url}
use issuebot.Orchestrator.Filing.Apply.{announce}
use issuebot.Orchestrator.Actions.{World, label_moved}

pub data FinishOutcome : Type 0 where
  complete no_change cancelled unchanged failed : FinishOutcome

pub record Workspaces (W : Type 0) : Type 0 where
  pub mark_finished : String → W → W
  pub remove : String → W → Option Bool × W

unfoldable pub finish_outcome : ClosedOutcome → FinishOutcome
finish_outcome ClosedOutcome.completed = complete
finish_outcome ClosedOutcome.no_change = no_change
finish_outcome ClosedOutcome.cancelled = cancelled

unfoldable pub finish_result : ClosedOutcome → Result (Unit {0}) → FinishOutcome
unfolding finish_outcome
finish_result outcome (ok _) = finish_outcome outcome
finish_result outcome (err e) = failed

unfoldable pub completed_by : Issue → CompletionResolution → Event
unfolding pr_url
completed_by issue resolution = issue_completed (record {
  issue_number = issue.number;
  issue_identifier = issue.identifier;
  pr_url = pr_url issue;
  resolution = resolution;
})

unfoldable pub cancelled_by : Issue → Event
cancelled_by issue = issue_cancelled (record {
  issue_number = issue.number;
  issue_identifier = issue.identifier;
  reason = "closed without a merged pull request";
})

module _ {W : Type 0} (workspaces : Workspaces W) where
  unfoldable pub remove_workspace : String → Exec W Bool
  remove_workspace identifier w =
      let (removed, w') = workspaces.remove identifier w in
      (ok (elim removed [ none ↦ false | some done ↦ done ]), w')

module _ {S G : Type 0} (a : GitHubAdapter (World S G)) (issue : Issue) where
  -- The two branches under `try`.
  unfoldable pub rest_in_complete : CompletionResolution → Exec (World S G) (Unit {0})
  unfolding announce label_moved completed_by
  rest_in_complete resolution = do
    a.set_state issue.number StateLabel.complete false
    announce (label_moved issue (some a.labels.complete))
    announce (completed_by issue resolution)

  unfoldable pub take_off : Exec (World S G) (Unit {0})
  unfolding announce label_moved cancelled_by
  take_off = do
    a.clear_state issue.number
    announce (label_moved issue none)
    announce (cancelled_by issue)

  unfoldable pub finish_try : ClosedOutcome → Exec (World S G) (Unit {0})
  unfolding rest_in_complete take_off
  finish_try ClosedOutcome.completed = rest_in_complete CompletionResolution.merged_pr
  finish_try ClosedOutcome.no_change = rest_in_complete CompletionResolution.no_change
  finish_try ClosedOutcome.cancelled = take_off

  unfoldable pub finish_as : ClosedOutcome → Exec (World S G) FinishOutcome
  unfolding finish_try finish_result attempt
  finish_as outcome = do result ← attempt (finish_try outcome); pure (finish_result outcome result)

  unfoldable pub finish_labels : Exec (World S G) FinishOutcome
  unfolding finish_as same_state classify_closed
  finish_labels =
      if same_state issue.state (some StateLabel.complete)
      then pure unchanged
      else finish_as (classify_closed issue a.labels)

  module _ (workspaces : Workspaces (World S G)) where
    unfoldable pub finish_terminal : Exec (World S G) FinishOutcome
    unfolding finish_labels remove_workspace
    finish_terminal = do
      (λ w. (ok tt, workspaces.mark_finished issue.identifier w))
      outcome ← finish_labels
      remove_workspace workspaces issue.identifier
      pure outcome
