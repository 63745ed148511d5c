-- ===== src/Orchestrator/AutoTriage.antt =====
-- orchestrator/auto_triage.py: auto-triage's record and its pure rules.
pub mod Rules
use issuebot.Prelude.{
  ℕ, String, Option, none, some, List, [], ◌∷◌, ◌++◌, map, Bool, true, false, not, ◌&&◌, ◌||◌, any,
  ltb, ◌*◌, in_strs, if◌then◌else◌,
}
use issuebot.Prelude.Text.{lower}
use issuebot.Config.{GitHubLabels, as_tuple, markers}
use issuebot.GitHub.Models.{Instant, Issue, opened}
use issuebot.Orchestrator.Approval.{author_deleted, not_a_maintainer, is_maintainer, or_unknown}

abbrev pub settle_us : ℕ
settle_us = 60 * 1000000

pub record AutoTriageRecord : Type 0 where
  pub auto : Bool
  pub watermark : Instant

unfoldable pub settle : Option AutoTriageRecord → Bool → Instant → Option AutoTriageRecord
settle none true now = some (record { auto = true; watermark = now })
settle none false now = none
settle (some r) true now = if r.auto then none else some (record { auto = true; watermark = now })
settle (some r) false now =
    if r.auto then some (record { auto = false; watermark = r.watermark }) else none

-- `issuebot.intersection(label.lower() for label in issue.labels)` is not empty.
unfoldable pub carries_issuebot_label : Issue → GitHubLabels → Bool
unfolding as_tuple markers
carries_issuebot_label issue labels =
    any (λ label. in_strs (lower label) (map lower (as_tuple labels ++ markers labels)))
      issue.labels

is_some {ℓ} : {A : Type ℓ} → Option A → Bool
is_some none = false
is_some (some _) = true

author_reason : Option String → Option String → Option String
author_reason none association = some author_deleted
author_reason (some author) association =
    if not (is_maintainer association)
    then some (not_a_maintainer author (or_unknown association))
    else none

unfoldable pub skip_reason : Issue → GitHubLabels → Option String
unfolding is_some author_reason opened
skip_reason issue labels =
    if not (opened issue.github_state)
    then some "closed"
    else if carries_issuebot_label issue labels
    then some "carries an issuebot label"
    else if is_some issue.parent || issue.parent_elsewhere
    then some "has a parent issue"
    else if ltb 0 issue.sub_issue_count
    then some "has sub-issues"
    else author_reason issue.author issue.author_association
