-- ===== src/Orchestrator/Actions/Escapes.antt =====
-- orchestrator/actions.py: `claim`, and the escapes that write on the workpad. A `try` gives back the
-- issue that it moved, its block and what failed of the note, or nothing where it is skipped.
use issuebot.Prelude.{
  String, Option, none, some, List, [], ◌∷◌, Bool, true, false, not, ◌||◌, if◌then◌else◌,
}
use issuebot.Prelude.Search.{contains}
use issuebot.GitHub.Models.{Instant, Issue, LabelApplied, in_progress, review, opened}
use issuebot.GitHub.State.{same_state, is_active}
use issuebot.GitHub.Adapter.{Result, ok, err, Exec, pure, attempt, GitHubAdapter, ◌>>=◌, ◌>>◌}
use issuebot.Orchestrator.Runtime.{BlockedContext, claimed_snapshot}
use issuebot.Orchestrator.Filing.Apply.{announce}
use issuebot.Orchestrator.Actions.{
  World, EscapeOutcome, applied, skipped, failed, BudgetLimit, label_moved, blocked_by, run_marker,
  blocked_block, budget_block, has_budget_block, unapproved_block,
}
use issuebot.Orchestrator.Actions.Notes.{NoteFailure, escape_note, report_note_failure}

-- What the `try` of an escape gives back.
pub record Moved : Type 0 where
  pub issue : Issue
  pub block : String
  pub note_failure : Option NoteFailure

-- `issues[0]`
unfoldable pub first : List Issue → Option Issue
first [] = none
first (issue ∷ _) = some issue

module _ {S G : Type 0} (a : GitHubAdapter (World S G)) where
  module _ (issue : Issue) where
    unfoldable pub claimed : Result (Unit {0}) → Exec (World S G) (Option Issue)
    unfolding announce label_moved claimed_snapshot
    claimed (err e) = pure none
    claimed (ok _) = do
      announce (label_moved issue (some a.labels.in_progress))
      pure (some (claimed_snapshot issue a.labels true))

    -- `none` when GitHub refuses.
    unfoldable pub claim : Exec (World S G) (Option Issue)
    unfolding claimed attempt
    claim = attempt (a.set_state issue.number in_progress true) >>= claimed

  -- The note and then the move to `review`.
  unfoldable pub note_and_review :
      (String → Bool) → String → Issue → Exec (World S G) (Option Moved)
  unfolding escape_note
  note_and_review written block issue = do
    note_failure ← escape_note a issue.number block written
    a.set_state issue.number review false
    pure (some (record { issue = issue; block = block; note_failure = note_failure }))

  module _ (context : BlockedContext) (now : Instant) where
    unfoldable pub blocked_try : List Issue → Exec (World S G) (Option Moved)
    unfolding first note_and_review run_marker blocked_block contains same_state
    blocked_try issues = elim (first issues) [
      | none ↦ pure none
      | some issue ↦
          if not (opened issue.github_state) || not (same_state issue.state (some in_progress))
          then pure none
          else note_and_review (λ body. contains body (run_marker context))
              (blocked_block context now a.labels) issue
    ]

    unfoldable pub blocked_end : Result (Option Moved) → Exec (World S G) EscapeOutcome
    unfolding announce label_moved blocked_by report_note_failure
    blocked_end (err e) = pure failed
    blocked_end (ok none) = pure skipped
    blocked_end (ok (some moved)) = do
      announce (label_moved moved.issue (some a.labels.review))
      announce (blocked_by moved.issue context.reason)
      report_note_failure a moved.issue.number moved.block moved.note_failure
      pure applied

    unfoldable pub blocked_escape : String → Exec (World S G) EscapeOutcome
    unfolding blocked_try blocked_end attempt
    blocked_escape issue_id =
        attempt (a.fetch_issues_by_ids (issue_id ∷ []) >>= blocked_try) >>= blocked_end

  -- The end of `budget_escape`; `is_news` is its parameter `announce`.
  unfoldable pub announce_news : Bool → String → Issue → Exec (World S G) EscapeOutcome
  unfolding announce blocked_by
  announce_news is_news reason issue =
      if not is_news then pure skipped else (announce (blocked_by issue reason) >> pure applied)

  module _ (limit : BudgetLimit) (reason : String) (now : Instant) (is_news : Bool) where
    unfoldable pub budget_try : List Issue → Exec (World S G) (Option Moved)
    unfolding first note_and_review has_budget_block budget_block is_active
    budget_try issues = elim (first issues) [
      | none ↦ pure none
      | some issue ↦
          if not (opened issue.github_state) || not (is_active issue.state)
          then pure none
          else note_and_review (λ body. has_budget_block body reason)
              (budget_block limit reason now a.labels) issue
    ]

    unfoldable pub budget_end : Result (Option Moved) → Exec (World S G) EscapeOutcome
    unfolding announce announce_news label_moved report_note_failure
    budget_end (err e) = pure failed
    budget_end (ok none) = pure skipped
    budget_end (ok (some moved)) = do
      announce (label_moved moved.issue (some a.labels.review))
      report_note_failure a moved.issue.number moved.block moved.note_failure
      announce_news is_news reason moved.issue

    unfoldable pub budget_escape : String → Exec (World S G) EscapeOutcome
    unfolding budget_try budget_end attempt
    budget_escape issue_id =
        attempt (a.fetch_issues_by_ids (issue_id ∷ []) >>= budget_try) >>= budget_end

  module _ (issue : Issue) (reason : String) (approval : Option LabelApplied) (now : Instant) where
    unfoldable pub unapproved_try : Exec (World S G) (Option NoteFailure)
    unfolding escape_note unapproved_block contains
    unapproved_try = do
      note_failure ←
          escape_note a issue.number (unapproved_block reason approval now a.labels)
            (λ body. contains body reason)
      a.clear_state issue.number
      pure note_failure

    unfoldable pub unapproved_end : Result (Option NoteFailure) → Exec (World S G) EscapeOutcome
    unfolding announce label_moved blocked_by report_note_failure unapproved_block
    unapproved_end (err e) = pure failed
    unapproved_end (ok note_failure) = do
      announce (label_moved issue none)
      announce (blocked_by issue reason)
      report_note_failure a issue.number (unapproved_block reason approval now a.labels)
          note_failure
      pure applied

    unfoldable pub unapproved_escape : Exec (World S G) EscapeOutcome
    unfolding unapproved_try unapproved_end attempt
    unapproved_escape = attempt unapproved_try >>= unapproved_end
