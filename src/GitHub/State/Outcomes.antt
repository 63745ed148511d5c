-- ===== src/GitHub/State/Outcomes.antt =====
-- What `classify_closed` of github/state.py makes of an issue that is closed, said of its pull request
-- and its labels.
use issuebot.Prelude.{
  Option, none, some, Bool-cases, inl, inr, in_strs, true, false, ◌≡◌, refl, ◌↔◌, arith,
}
use issuebot.Prelude.Text.{lower, strip}
use issuebot.Config.{GitHubLabels}
use issuebot.GitHub.Models.{StateLabel, same_role, Issue, LinkedPr, pr_merged}
use issuebot.GitHub.State.{
  ClosedOutcome, completed, no_change, cancelled, same_state, classify_closed, carries_no_fault,
  merged,
}

pub same_state_iff : (s t : Option StateLabel) → (same_state s t ≡ true) ↔ (s ≡ t)
unfolding same_state same_role
same_state_iff none none = (λ _. refl, λ _. refl)
same_state_iff none (some t) = ground arith
same_state_iff (some s) none = ground arith
same_state_iff (some s) (some t) = ground arith

-- The pull request of the issue was merged.
abbrev pub IsMerged : Issue → Type 0
IsMerged issue = (pr : LinkedPr) × (issue.linked_pr ≡ some pr) × (pr.state ≡ pr_merged)

-- The issue wears the no-fault marker, whose text stands in the settings as it was written.
abbrev pub IsMarked : Issue → GitHubLabels → Type 0
IsMarked issue labels = in_strs (lower (strip labels.no_fault)) issue.labels ≡ true

-- What makes an issue that is closed a completed one, one that needed no change, or a cancelled one.
abbrev pub IsOutcome : Issue → GitHubLabels → ClosedOutcome → Type 0
IsOutcome issue labels completed = IsMerged issue
IsOutcome issue labels no_change = ¬ IsMerged issue × IsMarked issue labels
IsOutcome issue labels cancelled = ¬ IsMerged issue × ¬ IsMarked issue labels

merged_pr :
    (linked_pr : Option LinkedPr)
    → merged linked_pr ≡ true
    → (pr : LinkedPr) × (linked_pr ≡ some pr) × (pr.state ≡ pr_merged)
unfolding merged
merged_pr none h = cc
merged_pr (some pr) h = (pr, refl, ground arith)

merged-some :
    (linked_pr : Option LinkedPr) (pr : LinkedPr)
    → linked_pr ≡ some pr
    → pr.state ≡ pr_merged
    → merged linked_pr ≡ true
unfolding merged
merged-some linked_pr pr e h = rw (e, h) refl

not_merged : (issue : Issue) → merged issue.linked_pr ≡ false → ¬ IsMerged issue
not_merged issue h (pr, e, s) = let was = merged-some issue.linked_pr pr e s in cc

pub classify_closed-IsOutcome :
    (issue : Issue) (labels : GitHubLabels) → IsOutcome issue labels (classify_closed issue labels)
unfolding classify_closed carries_no_fault
classify_closed-IsOutcome issue labels =
    elim (Bool-cases (merged issue.linked_pr))
      as (λ _. IsOutcome issue labels (classify_closed issue labels)) [
        | inl was ↦ rw was (merged_pr issue.linked_pr was)
        | inr was_not ↦
            elim (Bool-cases (in_strs (lower (strip labels.no_fault)) issue.labels))
              as (λ _. IsOutcome issue labels (classify_closed issue labels)) [
                | inl marked ↦ rw (was_not, marked) (not_merged issue was_not, marked)
                | inr bare ↦ rw (was_not, bare) (not_merged issue was_not, λ marked. cc)
              ]
      ]
