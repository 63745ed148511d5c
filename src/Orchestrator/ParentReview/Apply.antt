-- ===== src/Orchestrator/ParentReview/Apply.antt =====
-- `apply_parent_review` of orchestrator/parent_review.py, over the world of `apply_verdict`: the bus,
-- `S` for what the sinks change, and `G` for GitHub and all the rest. `on_moved` is the caller's callback.
use issuebot.Prelude.{
  ℕ, ◌+◌, String, none, some, List, [], ◌∷◌, Bool, not, any, ◌==◌, length, filter, in_strs,
  if◌then◌else◌,
}
use issuebot.Prelude.Float.{Float}
use issuebot.Prelude.Text.{lower}
use issuebot.GitHub.Models.{Issue, SubIssue}
use issuebot.GitHub.Adapter.{Exec, ok, pure, GitHubAdapter, ◌>>=◌, ◌>>◌}
use issuebot.Agent.Verdict.{SubIssueDraft, ParentReviewVerdict, met}
use issuebot.Events.{Event, state_changed, issue_completed, by_issuebot, parent_review}
use issuebot.Events.Bus.{EventBus}
use issuebot.Orchestrator.Triage.{sub_issue_body, by_key, RunNote}
use issuebot.Orchestrator.Filing.{file_steps}
use issuebot.Orchestrator.Filing.Apply.{announce}
use issuebot.Orchestrator.ParentReview.{
  filed_by, ReviewCounts, parent_review_note, parent_review_comment,
}

-- The children whose number is not in `known`.
unfoldable pub unseen : List ℕ → List SubIssue → List SubIssue
unseen known = filter (λ child. not (any (λ number. number == child.number) known))

module _ {S G : Type 0} (a : GitHubAdapter ((EventBus S × S) × G)) (issue : Issue)
    (verdict : ParentReviewVerdict) (seen : List ℕ) where
  abbrev pub review_step_text : ℕ → SubIssueDraft → String
  review_step_text step draft =
      sub_issue_body draft issue.number step (length seen + length verdict.sub_issues) a.labels
        filed_by

  -- The drafts of a `next` or a `gap`, matched against the children that the review did not see.
  unfoldable pub file_review : Exec ((EventBus S × S) × G) (List SubIssue)
  file_review = do
    children ← a.sub_issues issue.number
    file_steps a issue.number review_step_text (length seen + 1) (by_key [] (unseen seen children))
        verdict.sub_issues

  unfoldable pub parent_met : Event
  parent_met = state_changed (record {
    issue_number = issue.number;
    issue_identifier = issue.identifier;
    from_label = none;
    to_label = some a.labels.complete;
    actor = by_issuebot;
    pr_url = none;
    note = some "met";
  })

  unfoldable pub parent_completed : Event
  parent_completed = issue_completed (record {
    issue_number = issue.number;
    issue_identifier = issue.identifier;
    pr_url = none;
    resolution = parent_review;
  })

  unfoldable pub moved_by_review : Event
  moved_by_review = state_changed (record {
    issue_number = issue.number;
    issue_identifier = issue.identifier;
    from_label = some (
        if in_strs (lower a.labels.triage_todo) issue.labels
        then a.labels.triage_todo
        else a.labels.triage_complete);
    to_label = some a.labels.triage_complete;
    actor = by_issuebot;
    pr_url = none;
    note = some (parent_review_note verdict);
  })

  module _ (on_moved : (EventBus S × S) × G → (EventBus S × S) × G) (moved : Bool) where
    -- The calls of a `met` under `if not moved`.
    unfoldable pub close_parent : Exec ((EventBus S × S) × G) (Unit {0})
    unfolding parent_met parent_completed
    close_parent = do
      a.edit_labels issue.number (a.labels.complete ∷ a.labels.triage_complete ∷ [])
          (a.labels.triage_todo ∷ [])
      a.close_as_completed issue.number
      (λ w. (ok tt, on_moved w))
      announce parent_met
      announce parent_completed

    -- The label swap of a `next` or a `gap`, and its announcement.
    unfoldable pub swap_labels : Exec ((EventBus S × S) × G) (Unit {0})
    unfolding moved_by_review
    swap_labels = do
      a.edit_labels issue.number (a.labels.triage_complete ∷ []) (a.labels.triage_todo ∷ [])
      (λ w. (ok tt, on_moved w))
      if moved then pure tt else announce moved_by_review

    -- All but the comment: what the review files, and the move.
    unfoldable pub act_on_review : Exec ((EventBus S × S) × G) (List SubIssue)
    unfolding close_parent swap_labels file_review
    act_on_review = elim verdict.verdict [
      | met ↦ do if moved then pure tt else close_parent; pure []
      | _ ↦ do filed ← file_review; swap_labels; pure filed
    ]

    unfoldable pub apply_parent_review :
        {F : Type 0} ⦃f : Float F⦄
        → ReviewCounts
        → RunNote F
        → Exec ((EventBus S × S) × G) (List SubIssue)
    unfolding act_on_review
    apply_parent_review counts run = do
      filed ← act_on_review
      a.comment issue.number (parent_review_comment verdict filed counts run a.labels)
      pure filed
