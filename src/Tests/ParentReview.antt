-- ===== src/Tests/ParentReview.antt =====
-- Tests of a parent's review.
use issuebot.Prelude.{
  ℕ, String, none, some, List, [], ◌∷◌, ◌++◌, map, true, false, ◌≡◌, refl, arith, inr, All, any,
  all, filter, in_strs, str_eq,
}
use issuebot.Prelude.Float.{cents}
use issuebot.Prelude.Text.{lower, strip}
use issuebot.Config.{default_labels, as_tuple}
use issuebot.GitHub.Models.{Issue, SubIssue, ParentSteps, is_open}
use issuebot.GitHub.Adapter.{GrowsByCreation}
use issuebot.Agent.Verdict.{SubIssueDraft, ParentReviewVerdict, gap}
use issuebot.Orchestrator.Triage.{earlier_open_step, key}
use issuebot.Orchestrator.Filing.Loop.{Grown}
use issuebot.Orchestrator.Filing.Quiet.{children_of}
use issuebot.Orchestrator.ParentReview.{ReviewCounts, parent_review_due, steps_as_seen}
use issuebot.Orchestrator.ParentReview.Due.{earlier_open_step-due, steps_as_seen-filed}
use issuebot.Orchestrator.ParentReview.Apply.{unseen, apply_parent_review}
use issuebot.Orchestrator.ParentReview.Filed.{unseen_of, filed_by_review, apply_parent_review-Grown}
use issuebot.Tests.Samples.{queued_issue, sub_issue, closed_sub_issue}
use issuebot.Tests.Filing.{World, listed, lists_only, lists_only-HasSubIssues, draft, start, note}

abbrev done : ParentSteps
done = record {
  number = 20;
  labels = "issuebot/triage-complete" ∷ [];
  sub_issues = closed_sub_issue 21 "One" ∷ closed_sub_issue 22 "Two" ∷ [];
  id = "I_20";
  state = is_open;
}

due : parent_review_due done default_labels ≡ true
unfolding parent_review_due in_strs any str_eq lower as_tuple all
due = refl

abbrev second : Issue
second = record queued_issue { number = 22; parent = some 20 }

earlier_open_step-due_example : earlier_open_step second done default_labels ≡ none
earlier_open_step-due_example = earlier_open_step-due second done default_labels due

abbrev filing : List SubIssueDraft
filing = draft "Docs " ∷ []

abbrev added : List SubIssue
added = sub_issue 30 "docs" ∷ []

added_by_filing :
    All
      (λ step. in_strs (key step.title) (map (λ (d : SubIssueDraft). key d.title) filing) ≡ true)
      added
unfolding in_strs any key str_eq lower strip
added_by_filing = (refl, tt)

steps_as_seen-filed_example :
    steps_as_seen (record done { sub_issues = done.sub_issues ++ added }) (21 ∷ 22 ∷ []) filing
    ≡ true
steps_as_seen-filed_example =
    steps_as_seen-filed done default_labels added filing due added_by_filing

abbrev verdict : ParentReviewVerdict
verdict = record {
  verdict = gap;
  summary = "The docs are missing.";
  evidence = "docs/";
  ignored_requests = "";
  sub_issues = filing;
}

abbrev seen : List ℕ
seen = 21 ∷ []

unseen-snoc :
    (cs : List SubIssue) (title : String)
    → unseen seen (cs ++ sub_issue 30 title ∷ []) ≡ unseen seen cs ++ sub_issue 30 title ∷ []
unfolding unseen filter any
unseen-snoc [] title = refl
unseen-snoc (c ∷ cs) title = ground (arith, unseen-snoc cs title)

new_numbers : GrowsByCreation lists_only (children_of (unseen_of listed seen)) 7
new_numbers = record {
  creates = λ title text w child h. ground (arith, unseen-snoc (w.1 7) title);
  may_create =
      λ title text w e h. inr (sub_issue 30 title, refl, ground (arith, unseen-snoc (w.1 7) title));
  edits_labels = λ number add remove w. refl;
  closes = λ number w. refl;
  comments = λ number text w. refl;
}

abbrev counts : ReviewCounts
counts = record { review = 1; max_reviews = 5; gap_round = 1; max_gap_rounds = 2 }

unchanged : World → World
unchanged w = w

silent_move :
    (w : World)
    → children_of (unseen_of listed seen) 7 (unchanged w) ≡ children_of (unseen_of listed seen) 7 w
unfolding unchanged
silent_move w = refl

apply_parent_review-Grown_example :
    Grown
      (children_of (unseen_of listed seen))
      7
      (filed_by_review verdict)
      (unseen seen [])
      (apply_parent_review lists_only queued_issue verdict seen unchanged false ⦃f = cents⦄ counts
        (note 1)
        start).0
      (apply_parent_review lists_only queued_issue verdict seen unchanged false ⦃f = cents⦄ counts
        (note 1)
        start).1
apply_parent_review-Grown_example =
    apply_parent_review-Grown lists_only listed queued_issue verdict seen lists_only-HasSubIssues
      new_numbers unchanged silent_move false ⦃f = cents⦄ counts (note 1) start
