-- ===== src/Orchestrator/Approval.antt =====
-- orchestrator/approval.py: is the text a session would act on the text a human approved?
pub mod Spec
pub mod Assess
pub mod OwnLabel
pub mod Triage
use issuebot.Prelude.{
  ℕ, String, Option, none, some, List, [], ◌∷◌, Bool, true, false, not, ◌&&◌, ◌||◌, ltb, leb, ◌==◌,
  str_eq, filter, find, in_strs, if◌then◌else◌,
}
use issuebot.Prelude.Text.{lower, ◌<>◌}
use issuebot.Prelude.Sort.{sort, max_by}
use issuebot.GitHub.Models.{Instant, LabelApplied, Edited, body, title, TextEdit, ApprovalEvidence}
use issuebot.Orchestrator.Stamps.{utc_stamp}

abbrev pub maintainer_associations : List String
maintainer_associations = "OWNER" ∷ "MEMBER" ∷ "COLLABORATOR" ∷ []

abbrev pub deleted_account : String
deleted_account = "an account GitHub has deleted"

abbrev pub author_deleted : String
author_deleted = "opened by an account GitHub has deleted"

unfoldable pub no_other_approver : String → String → String
no_other_approver own_login todo_label =
    "no account other than " <> own_login <> " has applied `" <> todo_label <> "`"

unfoldable pub no_approver : String → String
no_approver todo_label = "no account has applied `" <> todo_label <> "`"

unfoldable pub not_a_maintainer : String → String → String
not_a_maintainer author association =
    "opened by " <> author <> ", whose association is " <> association <> ", not a maintainer's"

pub data Assessment : Type 0 where
  -- the approver and the time
  approved : String → Instant → Assessment
  -- the reason, the approval and the edit after it
  unapproved : String → Option LabelApplied → Option TextEdit → Assessment

-- `[(event.actor, event) for event in events if event.actor is not None and event.label.lower() ==
-- wanted]`
unfoldable pub named_labels : String → List LabelApplied → List (String × LabelApplied)
named_labels wanted [] = []
named_labels wanted (event ∷ events) =
    let rest = named_labels wanted events in
    elim event.actor [
      | none ↦ rest
      | some actor ↦ if str_eq (lower event.label) wanted then (actor, event) ∷ rest else rest
    ]

-- `own_labels_approve or actor.lower() != own`
unfoldable pub may_approve : Bool → String → (String × LabelApplied) → Bool
may_approve own_labels_approve own (actor, event) =
    own_labels_approve || not (str_eq (lower actor) own)

-- `edit.editor is not None and edit.editor.lower() == account.lower()`
unfoldable pub edited_by : String → TextEdit → Bool
edited_by account edit = elim edit.editor [
  | none ↦ false
  | some editor ↦ str_eq (lower editor) (lower account)
]

unfoldable pub editor_of : TextEdit → String
editor_of edit = elim edit.editor [ none ↦ deleted_account | some editor ↦ editor ]

unfoldable pub what_of : TextEdit → String
what_of edit = elim edit.what [ body ↦ "body" | title ↦ "title" ]

-- The keys of `sorted` and `max`.
unfoldable pub earlier_edit : TextEdit → TextEdit → Bool
earlier_edit a b = leb a.at b.at

unfoldable pub earlier_label : (String × LabelApplied) → (String × LabelApplied) → Bool
earlier_label (_, a) (_, b) = leb a.at b.at

-- An edit that the loop of `assess` does not pass over.
unfoldable pub undoes : String → LabelApplied → TextEdit → Bool
unfolding edited_by
undoes approver approval edit = not (ltb edit.at approval.at) && not (edited_by approver edit)

-- The edits of `assess`, after the approval was found.
unfoldable pub assess_edits : List TextEdit → String → LabelApplied → Assessment
unfolding earlier_edit undoes editor_of what_of utc_stamp
assess_edits edits approver approval =
    elim (find (undoes approver approval) (sort earlier_edit edits)) [
      | none ↦ approved approver approval.at
      | some edit ↦
          unapproved
            (what_of edit
              <> " edited at "
              <> utc_stamp edit.at
              <> " by "
              <> editor_of edit
              <> ", after "
              <> approver
              <> " applied `"
              <> approval.label
              <> "` at "
              <> utc_stamp approval.at)
            (some approval) (some edit)
    ]

-- The end of `assess`, for its `candidates`; `any_todo` is the truth of `todos`.
assess_candidates :
    List TextEdit → String → String → Bool → List (String × LabelApplied) → Assessment
unfolding assess_edits earlier_label no_other_approver no_approver
assess_candidates edits todo_label own_login any_todo [] =
    unapproved (if any_todo then no_other_approver own_login todo_label else no_approver todo_label)
      none none
assess_candidates edits todo_label own_login any_todo (c ∷ cs) =
    let (approver, approval) = max_by earlier_label c cs in assess_edits edits approver approval

is_empty {ℓ} : {A : Type ℓ} → List A → Bool
is_empty [] = true
is_empty (_ ∷ _) = false

unfoldable pub assess : ApprovalEvidence → String → String → Bool → Assessment
unfolding assess_candidates named_labels may_approve is_empty
assess evidence todo_label own_login own_labels_approve =
    let todos = named_labels (lower todo_label) evidence.label_events in
    assess_candidates evidence.edits todo_label own_login (not (is_empty todos))
      (filter (may_approve own_labels_approve (lower own_login)) todos)

-- The loop of `assess_authorship`: every edit since the issue was opened counts.
unfoldable pub assess_authored : List TextEdit → String → LabelApplied → Assessment
unfolding earlier_edit edited_by editor_of what_of utc_stamp
assess_authored edits author labelled =
    elim (find (λ edit. not (edited_by author edit)) (sort earlier_edit edits)) [
      | none ↦ approved author labelled.at
      | some edit ↦
          unapproved
            (what_of edit
              <> " edited at "
              <> utc_stamp edit.at
              <> " by "
              <> editor_of edit
              <> ", not by "
              <> author
              <> ", who opened it")
            (some labelled) (some edit)
    ]

-- `author_association in MAINTAINER_ASSOCIATIONS`
unfoldable pub is_maintainer : Option String → Bool
is_maintainer none = false
is_maintainer (some association) = in_strs association maintainer_associations

unfoldable pub or_unknown : Option String → String
or_unknown none = "unknown"
or_unknown (some association) = if str_eq association "" then "unknown" else association

unfoldable pub assess_authorship :
    ApprovalEvidence → Option String → Option String → LabelApplied → Assessment
unfolding assess_authored is_maintainer or_unknown not_a_maintainer
assess_authorship evidence none author_association labelled =
    unapproved author_deleted (some labelled) none
assess_authorship evidence (some author) author_association labelled =
    if not (is_maintainer author_association)
    then unapproved (not_a_maintainer author (or_unknown author_association)) (some labelled) none
    else assess_authored evidence.edits author labelled

-- The key `(item[1].at, item[0].lower() != own)`.
unfoldable pub before_in_tie : String → (String × LabelApplied) → (String × LabelApplied) → Bool
before_in_tie own (a, x) (b, y) =
    ltb x.at y.at || (x.at == y.at) && (str_eq (lower a) own || not (str_eq (lower b) own))

-- `isinstance(authored, Approved) or verdict.approval is None`
prefer : Assessment → Assessment → Assessment
prefer (approved who at) verdict = approved who at
prefer authored (approved who at) = authored
prefer authored (unapproved reason none edit) = authored
prefer authored (unapproved reason (some approval) edit) = unapproved reason (some approval) edit

triage_latest :
    ApprovalEvidence
    → Assessment
    → String
    → Option String
    → Option String
    → List (String × LabelApplied)
    → Assessment
unfolding before_in_tie prefer assess_authorship
triage_latest evidence verdict own author author_association [] = verdict
triage_latest evidence verdict own author author_association (c ∷ cs) =
    let (actor, latest) = max_by (before_in_tie own) c cs in
    if not (str_eq (lower actor) own)
    then verdict
    else prefer (assess_authorship evidence author author_association latest) verdict

triage_refused :
    ApprovalEvidence → Assessment → String → String → Option String → Option String → Assessment
unfolding triage_latest named_labels
triage_refused evidence (approved who at) triage_label own_login author author_association =
    approved who at
triage_refused evidence verdict triage_label own_login author author_association =
    triage_latest evidence verdict (lower own_login) author author_association
      (named_labels (lower triage_label) evidence.label_events)

unfoldable pub assess_triage :
    ApprovalEvidence → String → String → Bool → Option String → Option String → Assessment
unfolding assess triage_refused
assess_triage evidence triage_label own_login own_labels_approve author author_association =
    triage_refused evidence (assess evidence triage_label own_login own_labels_approve) triage_label
      own_login author author_association
