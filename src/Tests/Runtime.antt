-- ===== src/Tests/Runtime.antt =====
-- Tests of the orchestrator's runtime state.
use issuebot.Prelude.{
  none, some, ◌↔◌, ◌⊎◌, List, [], ◌∷◌, true, false, ◌≡◌, refl, str_eq, in_strs, any, find,
}
use mathlib.Core.List.{Perm}
use issuebot.Prelude.Text.{lower}
use issuebot.Orchestrator.Admission.Gate.{RunKind}
use issuebot.Config.{default_labels}
use issuebot.GitHub.Models.{Issue, SubIssue, ParentSteps, in_progress, is_open, opened}
use issuebot.Orchestrator.Runtime.{
  sort_candidates, claimed_snapshot, state_label_name, RunningEntry,
}
use issuebot.Orchestrator.Runtime.Order.{IsOrdered, sort_candidates-IsOrdered}
use issuebot.Orchestrator.Runtime.Snapshots.{IsTakenOff, in_strs-claimed_snapshot}
use issuebot.Orchestrator.Triage.{wears_triage, earlier_open_step}
use issuebot.Orchestrator.Triage.Steps.{has_number, number_of, earlier_open_step-find}
use issuebot.Tests.Samples.{
  sample_issue, queued_issue, plain_issue, sample_pr, sub_issue, closed_sub_issue,
}

abbrev candidates : List Issue
candidates = queued_issue ∷ sample_issue 3 (some in_progress) [] ∷ plain_issue ∷ []

sort_candidates-IsOrdered_example :
    IsOrdered (sort_candidates candidates) × Perm (sort_candidates candidates) candidates
sort_candidates-IsOrdered_example = sort_candidates-IsOrdered candidates

in_strs-claimed_snapshot_example :
    let claimed = claimed_snapshot plain_issue default_labels true in
    (claimed.state ≡ some in_progress)
    × (state_label_name claimed ≡ some (lower default_labels.in_progress))
    × ((claimed.dispatchable ≡ true) ↔ (plain_issue.github_state ≡ is_open))
    × ((in_strs "bug" claimed.labels ≡ true) ↔ (
        ("bug" ≡ lower default_labels.in_progress)
        ⊎ (in_strs "bug" plain_issue.labels ≡ true)
          × ¬ IsTakenOff default_labels true (lower "bug")))
in_strs-claimed_snapshot_example = in_strs-claimed_snapshot plain_issue default_labels true "bug"

abbrev moved_issue : Issue
moved_issue = record (sample_issue 7 (some in_progress) ("issuebot/in-progress" ∷ [])) {
  linked_pr = some sample_pr;
}

abbrev running : RunningEntry
running = record {
  issue = queued_issue;
  attempt = 1;
  rework_run = false;
  resumed = false;
  run_id = "r1";
  started_mono = 0;
  started_at = 0;
  cancel = false;
  account = none;
  task = none;
  session_id = none;
  last_activity_mono = none;
  last_activity_at = none;
  last_event = none;
  turns = 0;
  stop_cause = none;
  stop_detail = none;
  review_seen_mono = none;
  terminal_issue = none;
  kind = RunKind.work;
  steps_seen = [];
}

-- The third step of a split, whose first is closed.
abbrev third : Issue
third = record queued_issue { number = 23; parent = some 20 }

abbrev steps : ParentSteps
steps = record {
  number = 20;
  labels = "issuebot/triage-complete" ∷ [];
  sub_issues =
      closed_sub_issue 21 "One"
      ∷ sub_issue 22 "Two"
      ∷ sub_issue 23 "Three"
      ∷ sub_issue 24 "Four"
      ∷ [];
  id = "I_20";
  state = is_open;
}

triaged : wears_triage steps default_labels ≡ true
unfolding wears_triage any str_eq lower
triaged = refl

abbrev earlier : List SubIssue
earlier = closed_sub_issue 21 "One" ∷ sub_issue 22 "Two" ∷ []

not_earlier : has_number 23 earlier ≡ false
unfolding has_number any
not_earlier = refl

earlier_open_step-find_example :
    earlier_open_step third steps default_labels ≡ number_of (some (sub_issue 22 "Two"))
unfolding find opened
earlier_open_step-find_example =
    earlier_open_step-find third steps default_labels earlier (sub_issue 24 "Four" ∷ [])
      (sub_issue 23 "Three") refl triaged refl refl not_earlier
