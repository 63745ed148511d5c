-- ===== src/Orchestrator/ParentReview/Due.antt =====
-- What a due review of orchestrator/parent_review.py means for the steps of the parent.
use issuebot.Prelude.{
  ℕ, none, some, List, [], ◌∷◌, ◌++◌, map, Bool, true, not, all, length, take, drop, in_strs, ◌≡◌,
  refl, ap, ◌⊎◌, inl, arith, All,
}
use issuebot.Config.{GitHubLabels}
use issuebot.GitHub.Models.{Issue, SubIssue, ParentSteps, opened}
use issuebot.Agent.Verdict.{SubIssueDraft}
use issuebot.Orchestrator.Triage.{first_open, earlier_open_step, key}
use issuebot.Orchestrator.ParentReview.{parent_review_due, same_numbers, steps_as_seen}

unfoldable pub all_closed : List SubIssue → Bool
all_closed steps = all (λ step. not (opened step.state)) steps

-- The numbers of the steps, in their order.
abbrev pub numbers : List SubIssue → List ℕ
numbers = map (λ step. step.number)

first_open-all_closed :
    (number : ℕ) (steps : List SubIssue)
    → all_closed steps ≡ true
    → (first_open number steps ≡ none) ⊎ (first_open number steps ≡ some none)
unfolding first_open all_closed all
first_open-all_closed number [] h = inl refl
first_open-all_closed number (s ∷ steps) h = ground (arith, first_open-all_closed number steps)

due_closed :
    (steps : ParentSteps) (labels : GitHubLabels)
    → parent_review_due steps labels ≡ true
    → all_closed steps.sub_issues ≡ true
unfolding parent_review_due all_closed
due_closed steps labels h = ground arith

-- While a review of a parent is due, none of its issues is held back behind an earlier step.
pub earlier_open_step-due :
    (issue : Issue) (steps : ParentSteps) (labels : GitHubLabels)
    → parent_review_due steps labels ≡ true
    → earlier_open_step issue steps labels ≡ none
unfolding earlier_open_step
earlier_open_step-due issue steps labels h =
    ground (arith, first_open-all_closed issue.number steps.sub_issues, due_closed steps labels h)

take_head : (xs ys : List SubIssue) → take (length (numbers xs)) (xs ++ ys) ≡ xs
unfolding take
take_head [] ys = refl
take_head (x ∷ xs) ys = ap (λ zs. x ∷ zs) (take_head xs ys)

drop_head : (xs ys : List SubIssue) → drop (length (numbers xs)) (xs ++ ys) ≡ ys
unfolding drop
drop_head [] ys = refl
drop_head (x ∷ xs) ys = drop_head xs ys

same_numbers-numbers : (xs : List SubIssue) → same_numbers xs (numbers xs) ≡ true
unfolding same_numbers
same_numbers-numbers [] = refl
same_numbers-numbers (x ∷ xs) = ground (arith, same_numbers-numbers xs)

all-All : (p : SubIssue → Bool) (xs : List SubIssue) → All (λ x. p x ≡ true) xs → all p xs ≡ true
unfolding all
all-All p [] h = refl
all-All p (x ∷ xs) h = ground (arith, all-All p xs)

-- A review that was due still finds its steps as it saw them after any part of its own filing: with
-- further steps at the end, all of them under titles that it files.
pub steps_as_seen-filed :
    (steps : ParentSteps) (labels : GitHubLabels) (rest : List SubIssue)
    (filing : List SubIssueDraft)
    → parent_review_due steps labels ≡ true
    → All
        (λ step. in_strs (key step.title) (map (λ (d : SubIssueDraft). key d.title) filing) ≡ true)
        rest
    → steps_as_seen
        (record steps { sub_issues = steps.sub_issues ++ rest })
        (numbers steps.sub_issues)
        filing
      ≡ true
unfolding steps_as_seen all_closed
steps_as_seen-filed steps labels rest filing h i =
    rw
      (
        take_head steps.sub_issues rest,
        drop_head steps.sub_issues rest,
        same_numbers-numbers steps.sub_issues,
      )
      (ground (arith, due_closed steps labels h, all-All _ rest i))
