-- ===== src/Orchestrator/Approval/Spec.antt =====
-- What an answer of orchestrator/approval.py has to rest on, said of the evidence alone.
use issuebot.Prelude.{
  ◌≤◌, String, none, some, Bool, true, false, not, ◌&&◌, ◌||◌, ◌≡◌, str_eq, All, In,
}
use issuebot.Prelude.Text.{lower}
use issuebot.GitHub.Models.{LabelApplied, ApprovalEvidence}
use issuebot.Orchestrator.Approval.{Assessment, approved, unapproved, edited_by}

-- A label event that can approve: the right label, by a named account that is not issuebot's own
-- unless its own labels approve.
unfoldable pub counts : String → String → Bool → LabelApplied → Bool
counts todo_label own_login own_labels_approve event = elim event.actor [
  | none ↦ false
  | some actor ↦
      str_eq (lower event.label) (lower todo_label)
      && (own_labels_approve || not (str_eq (lower actor) (lower own_login)))
]

-- `event` is an event of the timeline that counts, by `who`, and no later event counts.
pub record IsLatest (evidence : ApprovalEvidence) (count : LabelApplied → Bool)
    (event : LabelApplied) (who : String) : Type 0 where
  pub listed : In event evidence.label_events
  pub actor : event.actor ≡ some who
  pub counted : count event ≡ true
  pub latest : All (λ e. count e ≡ true → e.at ≤ event.at) evidence.label_events

-- An approval rests on the latest event that counts, with every edit at or after it by the approver.
-- A refusal rests on there being no event that counts, or on an edit at or after the latest one that
-- is not by the approver.
abbrev pub Justified : ApprovalEvidence → (LabelApplied → Bool) → Assessment → Type 0
Justified evidence count (approved who at) =
    (event : LabelApplied) × IsLatest evidence count event who
    × (event.at ≡ at)
    × All (λ edit. at ≤ edit.at → edited_by who edit ≡ true) evidence.edits
Justified evidence count (unapproved reason none none) =
    All (λ e. count e ≡ false) evidence.label_events
Justified evidence count (unapproved reason (some event) (some edit)) =
    (who : String) × IsLatest evidence count event who
    × In edit evidence.edits
    × (event.at ≤ edit.at)
    × (edited_by who edit ≡ false)
Justified evidence count (unapproved reason _ _) = ⊥
