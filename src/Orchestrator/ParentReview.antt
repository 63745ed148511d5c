-- ===== src/Orchestrator/ParentReview.antt =====
-- orchestrator/parent_review.py: when a split parent is reviewed, and what the review is told to say.
pub mod Due
pub mod Apply
pub mod Filed
use issuebot.Prelude.{
  ℕ, ◌+◌, String, Option, none, some, List, [], ◌∷◌, ◌++◌, map, Bool, true, false, not, ◌&&◌, all,
  any, ◌==◌, ltb, in_strs, length, take, drop, if◌then◌else◌,
}
use issuebot.Prelude.Float.{Float}
use issuebot.Prelude.Text.{lower, show, ◌<>◌}
use issuebot.Config.{GitHubLabels, as_tuple}
use issuebot.GitHub.Models.{Issue, SubIssue, ParentSteps, opened}
use issuebot.Agent.Verdict.{SubIssueDraft, ReviewAnswer, next, met, gap, ParentReviewVerdict}
use issuebot.Events.{ParentReviewState}
use issuebot.Orchestrator.Stamps.{utc_stamp}
use issuebot.Orchestrator.Triage.{
  plural, is_nil, join_lines, filed_lines, ignored_line, key, RunNote,
}

abbrev pub filed_by : String
filed_by = "issuebot's parent review"

-- What the worker remembers of one split parent.
pub record ParentRecord : Type 0 where
  pub identifier : String
  pub reviews : ℕ
  pub gap_rounds : ℕ
  pub handed_over : Option String
  pub finished : Bool

unfoldable pub watched : ParentRecord → Bool
watched r = elim r.handed_over [ none ↦ not r.finished | some _ ↦ false ]

unfoldable pub state_event : ParentRecord → ℕ → ParentReviewState
state_event r number = record {
  issue_number = number;
  issue_identifier = r.identifier;
  reviews = r.reviews;
  gap_rounds = r.gap_rounds;
  handed_over = r.handed_over;
  finished = r.finished;
}

pub record ReviewCounts : Type 0 where
  pub review : ℕ
  pub max_reviews : ℕ
  pub gap_round : ℕ
  pub max_gap_rounds : ℕ

unfoldable pub parent_review_due : ParentSteps → GitHubLabels → Bool
unfolding is_nil opened
parent_review_due steps labels =
    let held = map lower (labels.triage_todo ∷ as_tuple labels) in
    opened steps.state
    && (in_strs (lower labels.triage_complete) steps.labels
        && (not (any (λ label. in_strs label held) steps.labels)
            && (not (is_nil steps.sub_issues)
                && all (λ step. not (opened step.state)) steps.sub_issues)))

-- `tuple(step.number for step in head) == tuple(seen)`
unfoldable pub same_numbers : List SubIssue → List ℕ → Bool
same_numbers [] [] = true
same_numbers (step ∷ steps) (number ∷ numbers) = step.number == number && same_numbers steps numbers
same_numbers _ _ = false

unfoldable pub steps_as_seen : ParentSteps → List ℕ → List SubIssueDraft → Bool
unfolding same_numbers opened
steps_as_seen steps seen filing =
    let head = take (length seen) steps.sub_issues in
    let rest = drop (length seen) steps.sub_issues in
    let drafts = map (λ (draft : SubIssueDraft). key draft.title) filing in
    same_numbers head seen
    && (all (λ step. not (opened step.state)) head
        && all (λ step. in_strs (key step.title) drafts) rest)

unfoldable pub answer_name : ReviewAnswer → String
answer_name next = "next"
answer_name met = "met"
answer_name gap = "gap"

unfoldable pub parent_review_note : ParentReviewVerdict → String
unfolding answer_name
parent_review_note verdict = elim verdict.verdict [
  | met ↦ "met"
  | answer ↦ answer_name answer <> ": " <> plural (length verdict.sub_issues) "sub-issue"
]

-- `if filed`
listed_steps : List SubIssue → List SubIssueDraft → List String
listed_steps [] drafts = []
listed_steps filed drafts = "" ∷ filed_lines 1 filed drafts

module _ {F : Type 0} ⦃f : Float F⦄ where
  unfoldable pub parent_review_comment :
      ParentReviewVerdict → List SubIssue → ReviewCounts → RunNote F → GitHubLabels → String
  unfolding listed_steps
  parent_review_comment verdict filed counts run labels =
      let opening : String = elim verdict.verdict [
        | next ↦
            "**Verdict: next.** The steps so far were a phase, so issuebot has filed the next "
            <> plural (length verdict.sub_issues) "sub-issue"
            <> ", in order, after the others. Label every issuebot step `"
            <> labels.todo
            <> "` at once if you like: issuebot starts each only when every step before it has closed."
        | gap ↦
            "**Verdict: gap.** Something the original ask needs is missing, so issuebot has filed one sub-issue per gap. This is gap round "
            <> show counts.gap_round
            <> " of "
            <> show counts.max_gap_rounds
            <> "."
        | met ↦
            "**Verdict: met.** The original ask is met, so issuebot has closed this issue and labelled it `"
            <> labels.complete <> "`."
      ] in
      join_lines (
        ("### Issuebot parent review (" <> utc_stamp run.now <> ")") ∷ "" ∷ opening ∷ []
        ++ listed_steps filed verdict.sub_issues
        ++ "" ∷ verdict.summary ∷ "" ∷ ("- **Evidence:** " <> verdict.evidence) ∷ []
        ++ ignored_line verdict.ignored_requests
        ++ ""
          ∷ ("Run `"
              <> run.run_id
              <> "` (attempt "
              <> show run.attempt
              <> ", "
              <> plural run.turns "turn"
              <> ", $"
              <> f.fixed2 run.cost_usd
              <> "). Review "
              <> show counts.review
              <> " of at most "
              <> show counts.max_reviews
              <> ".")
          ∷ [])

-- `PendingParentReview` (orchestrator/state.py): a verdict that GitHub would not let the worker file.
pub record PendingParentReview (F : Type 0) : Type 0 where
  pub issue : Issue
  pub verdict : ParentReviewVerdict
  pub seen : List ℕ
  pub counts : ReviewCounts
  pub run_id : String
  pub attempt : ℕ
  pub turns : ℕ
  pub cost_usd : F
  pub tries : ℕ
  pub moved : Bool

unfoldable pub past_gap_limit : {F : Type 0} → PendingParentReview F → Bool
past_gap_limit p = elim p.verdict.verdict [
  | gap ↦ ltb p.counts.max_gap_rounds p.counts.gap_round
  | _ ↦ false
]
