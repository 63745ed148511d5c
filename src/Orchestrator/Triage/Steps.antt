-- ===== src/Orchestrator/Triage/Steps.antt =====
-- Which step holds back which (`earlier_open_step` of orchestrator/triage.py).
use issuebot.Prelude.{
  ℕ, Option, none, some, List, [], ◌∷◌, ◌++◌, Bool, true, false, any, find, ◌==◌, ◌≡◌, arith,
}
use issuebot.Config.{GitHubLabels}
use issuebot.GitHub.Models.{Issue, SubIssue, ParentSteps, opened}
use issuebot.Orchestrator.Triage.{first_open, is_parent, wears_triage, earlier_open_step}

-- A step of the list has the number.
unfoldable pub has_number : ℕ → List SubIssue → Bool
has_number number steps = any (λ step. step.number == number) steps

unfoldable pub number_of : Option SubIssue → Option ℕ
number_of none = none
number_of (some step) = some step.number

first_open-find :
    (number : ℕ) (before after : List SubIssue) (own : SubIssue)
    → own.number ≡ number
    → has_number number before ≡ false
    → first_open number (before ++ own ∷ after)
      ≡ some (number_of (find (λ s. opened s.state) before))
unfolding first_open has_number any find number_of
first_open-find number [] after own e h = ground arith
first_open-find number (s ∷ before) after own e h =
    ground (arith, first_open-find number before after own e)

-- An issue of a triaged parent that stands among its steps is held by the first of the steps before
-- it that is open, and by none when they have all closed.
pub earlier_open_step-find :
    (issue : Issue) (steps : ParentSteps) (labels : GitHubLabels) (before after : List SubIssue)
    (own : SubIssue)
    → issue.parent ≡ some steps.number
    → wears_triage steps labels ≡ true
    → steps.sub_issues ≡ before ++ own ∷ after
    → own.number ≡ issue.number
    → has_number issue.number before ≡ false
    → earlier_open_step issue steps labels ≡ number_of (find (λ s. opened s.state) before)
unfolding earlier_open_step is_parent
earlier_open_step-find issue steps labels before after own p t l e h =
    ground (arith, first_open-find issue.number before after own e h, p, t, l)
