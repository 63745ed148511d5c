-- ===== src/Orchestrator/AutoTriage/Rules.antt =====
-- What orchestrator/auto_triage.py decides, and what the approval check later makes of it.
use issuebot.Prelude.{
  String, Option, none, some, List, Bool, true, false, not, ◌&&◌, if◌then◌else◌, ◌≡◌, ◌≢◌, refl,
  ◌↔◌, All, All-map, ◌⊎◌, find, [], ◌∷◌, ◌++◌, any, map, in_strs, str_eq_iff, arith,
}
use issuebot.Prelude.Sort.{sort, All-sort}
use issuebot.Prelude.Text.{lower}
use issuebot.Config.{GitHubLabels, as_tuple, markers}
use issuebot.GitHub.Models.{Instant, Issue, is_open, TextEdit, LabelApplied, ApprovalEvidence}
use issuebot.Orchestrator.Approval.{
  approved, edited_by, earlier_edit, is_maintainer, assess_authored, assess_authorship,
}
use issuebot.Orchestrator.AutoTriage.{AutoTriageRecord, settle, carries_issuebot_label, skip_reason}

-- What is on record after the setting was read.
abbrev pub settled : Option AutoTriageRecord → Bool → Instant → Option AutoTriageRecord
settled r auto now = elim (settle r auto now) [ none ↦ r | some r' ↦ some r' ]

-- Whether auto-triage is on, and since when its labels count.
unfoldable pub is_on : Option AutoTriageRecord → Bool
is_on none = false
is_on (some r) = r.auto

unfoldable pub watermark_of : Option AutoTriageRecord → Option Instant
watermark_of none = none
watermark_of (some r) = some r.watermark

-- A reading of the setting puts the setting on record; it moves the watermark, to the time of the
-- reading, exactly when it switches auto-triage on; and reading the same setting again at any later
-- time changes nothing.
pub settle-settled :
    (r : Option AutoTriageRecord) (auto : Bool) (now later : Instant)
    → (is_on (settled r auto now) ≡ auto)
      × (watermark_of (settled r auto now)
          ≡ (if auto && not (is_on r) then some now else watermark_of r))
      × (settle (settled r auto now) auto later ≡ none)
unfolding settle is_on watermark_of
settle-settled none true now later = (refl, refl, refl)
settle-settled none false now later = (refl, refl, refl)
settle-settled (some r) true now later = ground arith
settle-settled (some r) false now later = ground arith

find_of_none :
    {A : Type 0} (p : A → Bool) (xs : List A) → All (λ x. p x ≡ false) xs → find p xs ≡ none
unfolding find
find_of_none p [] h = refl
find_of_none p (x ∷ xs) h = rw h.0 (find_of_none p xs h.1)

maintainer_of :
    (issue : Issue) (labels : GitHubLabels)
    → skip_reason issue labels ≡ none
    → is_maintainer issue.author_association ≡ true
unfolding skip_reason
maintainer_of issue labels h = ground arith

-- The label is none of those that the settings name, whatever its case: the five states and the four
-- markers.
abbrev pub IsForeign : GitHubLabels → String → Type 0
IsForeign l label =
    (lower label ≢ lower l.todo)
    × (lower label ≢ lower l.in_progress)
    × (lower label ≢ lower l.review)
    × (lower label ≢ lower l.rework)
    × (lower label ≢ lower l.complete)
    × (lower label ≢ lower l.no_fault)
    × (lower label ≢ lower l.triage_todo)
    × (lower label ≢ lower l.triage_complete)
    × (lower label ≢ lower l.operator_step)

IsForeign-iff :
    (l : GitHubLabels) (label : String)
    → (in_strs (lower label) (map lower (as_tuple l ++ markers l)) ≡ false) ↔ IsForeign l label
unfolding as_tuple markers in_strs any
IsForeign-iff l label = ground (
  arith,
  str_eq_iff (lower l.todo) (lower label),
  str_eq_iff (lower l.in_progress) (lower label),
  str_eq_iff (lower l.review) (lower label),
  str_eq_iff (lower l.rework) (lower label),
  str_eq_iff (lower l.complete) (lower label),
  str_eq_iff (lower l.no_fault) (lower label),
  str_eq_iff (lower l.triage_todo) (lower label),
  str_eq_iff (lower l.triage_complete) (lower label),
  str_eq_iff (lower l.operator_step) (lower label),
)

any-All_iff :
    {A : Type 0} (p : A → Bool) (Q : A → Type 0) (xs : List A)
    → ((x : A) → (p x ≡ false) ↔ Q x)
    → (any p xs ≡ false) ↔ All Q xs
unfolding any
any-All_iff p Q [] h = (λ _. tt, λ _. refl)
any-All_iff p Q (x ∷ xs) h = ground (arith, any-All_iff p Q xs h, h x)

carries-IsForeign_iff :
    (issue : Issue) (labels : GitHubLabels)
    → (carries_issuebot_label issue labels ≡ false) ↔ All (IsForeign labels) issue.labels
unfolding carries_issuebot_label
carries-IsForeign_iff issue labels =
    any-All_iff _ (IsForeign labels) issue.labels (IsForeign-iff labels)

-- GitHub says of the author that the repository is theirs or that they work on it.
abbrev pub IsMaintained : Option String → Type 0
IsMaintained association =
    (association ≡ some "OWNER")
    ⊎ (association ≡ some "MEMBER")
    ⊎ (association ≡ some "COLLABORATOR")

maintainer_iff :
    (association : Option String) → (is_maintainer association ≡ true) ↔ IsMaintained association
unfolding is_maintainer in_strs any
maintainer_iff none = ground arith
maintainer_iff (some s) =
    ground (arith, str_eq_iff "OWNER" s, str_eq_iff "MEMBER" s, str_eq_iff "COLLABORATOR" s)

-- There is no reason to skip an issue exactly when it is open, wears only labels that the settings do
-- not name, is nobody's step and no parent, and was opened by a named owner, member or collaborator.
pub skip_reason-none_iff :
    (issue : Issue) (labels : GitHubLabels)
    → (skip_reason issue labels ≡ none) ↔ (
        (issue.github_state ≡ is_open)
        × All (IsForeign labels) issue.labels
        × (issue.parent ≡ none)
        × (issue.parent_elsewhere ≡ false)
        × (issue.sub_issue_count ≡ 0)
        × (issue.author ≢ none)
        × IsMaintained issue.author_association)
unfolding skip_reason
skip_reason-none_iff issue labels =
    let foreign = carries-IsForeign_iff issue labels in
    let trusted = maintainer_iff issue.author_association in
    (λ h. ground (arith, foreign, trusted), λ h. ground (arith, foreign, trusted))

authored_approved :
    (edits : List TextEdit) (author : String) (labelled : LabelApplied)
    → All (λ edit. edited_by author edit ≡ true) edits
    → assess_authored edits author labelled ≡ approved author labelled.at
unfolding assess_authored
authored_approved edits author labelled h = rw (
  find_of_none (λ edit. not (edited_by author edit)) (sort earlier_edit edits)
      (All-map _ _ (sort earlier_edit edits) (λ e x. ground arith)
        (All-sort _ earlier_edit edits h)),
  assess_authored,
)

-- An issue that auto-triage labels passes the author checks of the approval that follows: unless
-- somebody else edited it, it is approved in its author's name.
pub skip_reason-authorship :
    (issue : Issue) (labels : GitHubLabels) (author : String) (evidence : ApprovalEvidence)
    (labelled : LabelApplied)
    → skip_reason issue labels ≡ none
    → issue.author ≡ some author
    → All (λ edit. edited_by author edit ≡ true) evidence.edits
    → assess_authorship evidence issue.author issue.author_association labelled
      ≡ approved author labelled.at
unfolding assess_authorship
skip_reason-authorship issue labels author evidence labelled h a edits =
    let maintainer = maintainer_of issue labels h in
    rw a (ground (arith, authored_approved evidence.edits author labelled edits))
