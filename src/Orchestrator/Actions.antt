-- ===== src/Orchestrator/Actions.antt =====
-- orchestrator/actions.py: the outcomes, the texts, and the calls that the actions share. The log
-- lines are left out. `World` is the bus, `S` for what the sinks change, and `G` for all the rest.
pub mod Notes
pub mod Escapes
pub mod HandBack
pub mod Conflict
pub mod Finish
pub mod Assessing
pub mod Effects
pub mod Final
pub mod Applied
pub mod Tries
pub mod Announced
pub mod Due
pub mod Finished
pub mod Bounces
use issuebot.Prelude.{
  ℕ, ◌==◌, String, Option, none, some, List, [], ◌∷◌, ◌++◌, Bool, any, str_eq, if◌then◌else◌,
}
use issuebot.Prelude.Text.{◌<>◌, show, strip}
use issuebot.Prelude.Search.{split_lines}
use issuebot.Config.{GitHubLabels}
use issuebot.GitHub.Models.{Instant, Issue, LabelApplied}
use issuebot.Events.{Event, state_changed, blocked, by_issuebot}
use issuebot.Events.Bus.{EventBus}
use issuebot.Orchestrator.Runtime.{BlockedContext, state_label_name, pr_url}
use issuebot.Orchestrator.Stamps.{utc_stamp}

abbrev pub World : Type 0 → Type 0 → Type 0
World S G = (EventBus S × S) × G

pub data EscapeOutcome : Type 0 where
  applied skipped failed : EscapeOutcome

pub data BudgetLimit : Type 0 where
  attempts spend : BudgetLimit

-- The event of a label that issuebot moved.
unfoldable pub label_moved : Issue → Option String → Event
unfolding state_label_name pr_url
label_moved issue to_label = state_changed (record {
  issue_number = issue.number;
  issue_identifier = issue.identifier;
  from_label = state_label_name issue;
  to_label = to_label;
  actor = by_issuebot;
  pr_url = pr_url issue;
  note = none;
})

unfoldable pub blocked_by : Issue → String → Event
blocked_by issue reason =
    blocked
      (record { issue_number = issue.number; issue_identifier = issue.identifier; reason = reason })

unfoldable pub run_marker : BlockedContext → String
run_marker context = "Run `" <> context.run_id <> "`"

logs_of : Option String → String
logs_of none = ""
logs_of (some log_dir) = if str_eq log_dir "" then "" else "; logs: `" <> log_dir <> "`"

unfoldable pub blocked_block : BlockedContext → Instant → GitHubLabels → String
unfolding run_marker logs_of
blocked_block context now labels =
    "### Issuebot blocked ("
    <> utc_stamp now
    <> ")\n\n"
    <> context.reason
    <> "\n"
    <> run_marker context
    <> " (attempt "
    <> show context.attempt
    <> ", "
    <> show context.turns
    <> " "
    <> (if context.turns == 1 then "turn" else "turns")
    <> ")"
    <> logs_of context.log_dir
    <> ".\nMoved to `"
    <> labels.review
    <> "` for a human to look at."

budget_reason_prefix : String
budget_reason_prefix = "issuebot has stopped claiming this issue: "

budget_recovery : BudgetLimit → GitHubLabels → String
budget_recovery attempts labels =
    "Fix what the runs kept failing on, then label the issue `" <> labels.rework <> "` or `"
    <> labels.todo
    <> "`: handing it over here ends the chain of failures, so the next label move starts the "
    <> "run budget again."
budget_recovery spend labels =
    "Raise `agent.max_issue_cost_usd` (or close the issue), *then* relabel. Relabelling "
    <> "on its own only brings the issue back here: what this ceiling counts is what the "
    <> "issue has already cost, and that never resets."

unfoldable pub budget_block : BudgetLimit → String → Instant → GitHubLabels → String
unfolding budget_recovery budget_reason_prefix
budget_block limit reason now labels =
    "### Issuebot budget limit ("
    <> utc_stamp now
    <> ")\n\n"
    <> budget_reason_prefix
    <> reason
    <> ".\nMoved to `"
    <> labels.review
    <> "` for a human to look at. "
    <> budget_recovery limit labels

unfoldable pub has_budget_block : String → String → Bool
unfolding budget_reason_prefix split_lines
has_budget_block body reason =
    any (λ candidate. str_eq (strip candidate) (budget_reason_prefix <> reason <> "."))
      (split_lines body)

unapproved_explanation : Option LabelApplied → String
unapproved_explanation (some _) =
    "issuebot has removed the label: the text a session would act on is no longer "
    <> "the text that was approved."
unapproved_explanation none =
    "issuebot has removed the label: it can find no approval of the text a session would act on."

-- The reason and the approval of an `Unapproved` verdict.
unfoldable pub unapproved_block : String → Option LabelApplied → Instant → GitHubLabels → String
unfolding unapproved_explanation
unapproved_block reason approval now labels =
    "### Issuebot unapproved edit ("
    <> utc_stamp now
    <> ")\n\n"
    <> reason
    <> ". "
    <> unapproved_explanation approval
    <> " Read the current title and description; if they are what you want done, apply `"
    <> labels.todo
    <> "` again.\n"

unfoldable pub conflict_limit_heading : String
conflict_limit_heading = "### Issuebot merge conflict limit ("

unfoldable pub conflict_block : ℕ → ℕ → ℕ → Instant → GitHubLabels → String
conflict_block pr_number bounce limit now labels =
    "### Issuebot merge conflict ("
    <> utc_stamp now
    <> ")\n\nPull request #"
    <> show pr_number
    <> " conflicts with the default branch (bounce "
    <> show bounce
    <> " of "
    <> show limit
    <> ").\nMoved to `"
    <> labels.rework
    <> "`: the next session merges the default branch into the branch, resolves the conflict, "
    <> "re-runs validation and returns the issue to `"
    <> labels.review
    <> "`."

unfoldable pub conflict_limit_block : ℕ → ℕ → Instant → GitHubLabels → String
unfolding conflict_limit_heading
conflict_limit_block pr_number limit now labels =
    conflict_limit_heading
    <> utc_stamp now
    <> ")\n\nPull request #"
    <> show pr_number
    <> " conflicts with the default branch again. issuebot has moved this issue to `"
    <> labels.rework
    <> "` "
    <> show limit
    <> " "
    <> (if limit == 1 then "time" else "times")
    <> " for it and will not again. "
    <> "A human resolves the conflict on the branch, or moves the issue."
