-- ===== src/Tests/Approval.antt =====
-- Tests of the approval rules and of auto-triage.
use issuebot.Prelude.{
  ℕ, String, Option, none, some, [], ◌∷◌, true, false, ◌≡◌, ◌≢◌, refl, ◌⊎◌, ◌↔◌, All, str_eq, find,
  filter, any, in_strs,
}
use issuebot.Prelude.Text.{lower}
use issuebot.Prelude.Sort.{sort, max_by}
use issuebot.Config.{default_labels}
use issuebot.GitHub.Models.{is_open, TextEdit, body, LabelApplied, ApprovalEvidence}
use issuebot.Orchestrator.Approval.{
  approved, assess, assess_triage, assess_authorship, edited_by, is_maintainer, named_labels,
  may_approve, before_in_tie, assess_authored, earlier_edit, earlier_label,
}
use issuebot.Orchestrator.Approval.Spec.{counts, Justified}
use issuebot.Orchestrator.Approval.Assess.{assess-Justified}
use issuebot.Orchestrator.Approval.OwnLabel.{with_label, assess-own_label}
use issuebot.Orchestrator.Approval.Triage.{IsAuthored, assess_triage-approved}
use issuebot.Orchestrator.AutoTriage.{AutoTriageRecord, carries_issuebot_label, skip_reason}
use issuebot.Orchestrator.AutoTriage.Rules.{
  IsForeign, IsMaintained, skip_reason-none_iff, skip_reason-authorship,
}
use issuebot.Tests.Samples.{plain_issue}

abbrev label_by : String → String → ℕ → LabelApplied
label_by label actor at = record { label = label; actor = some actor; at = at }

abbrev edit_by : String → ℕ → TextEdit
edit_by editor at = record { what = body; editor = some editor; at = at }

abbrev evidence : ApprovalEvidence
evidence = record {
  label_events = label_by "Issuebot/todo" "ada" 100 ∷ label_by "issuebot/todo" "bot" 300 ∷ [];
  edits = edit_by "Ada" 200 ∷ edit_by "eve" 50 ∷ [];
}

abbrev auto_labelled : ApprovalEvidence
auto_labelled = record {
  label_events = label_by "issuebot/triage-todo" "bot" 100 ∷ [];
  edits = edit_by "Ada" 50 ∷ [];
}

assess-Justified_example :
    Justified evidence
      (counts "issuebot/todo" "bot" false)
      (assess evidence "issuebot/todo" "bot" false)
assess-Justified_example = assess-Justified evidence "issuebot/todo" "bot" false

own : lower "Bot" ≡ lower "bot"
unfolding lower
own = refl

assess-own_label_example :
    (assess (with_label evidence (label_by "issuebot/todo" "Bot" 400)) "issuebot/todo" "bot" false
      ≡ approved "ada" 100)
    ↔ (assess evidence "issuebot/todo" "bot" false ≡ approved "ada" 100)
assess-own_label_example =
    assess-own_label "issuebot/todo" "bot" evidence (label_by "issuebot/todo" "Bot" 400) "Bot" "ada"
      100 refl own

authored :
    assess_triage auto_labelled "issuebot/triage-todo" "bot" false (some "Ada") (some "OWNER")
    ≡ approved "Ada" 100
unfolding assess_triage assess named_labels may_approve filter max_by before_in_tie
    assess_authorship assess_authored is_maintainer sort find edited_by any in_strs str_eq lower
    earlier_edit earlier_label
authored = refl

assess_triage-approved_example :
    (assess auto_labelled "issuebot/triage-todo" "bot" false ≡ approved "Ada" 100)
    ⊎ IsAuthored auto_labelled "issuebot/triage-todo" "bot" (some "Ada") (some "OWNER") "Ada" 100
assess_triage-approved_example =
    assess_triage-approved auto_labelled "issuebot/triage-todo" "bot" false (some "Ada")
      (some "OWNER") "Ada" 100 authored

abbrev off : Option AutoTriageRecord
off = some (record { auto = false; watermark = 10 })

skip_reason-none_iff_example : (skip_reason plain_issue default_labels ≡ none) ↔ (
    (plain_issue.github_state ≡ is_open)
    × All (IsForeign default_labels) plain_issue.labels
    × (plain_issue.parent ≡ none)
    × (plain_issue.parent_elsewhere ≡ false)
    × (plain_issue.sub_issue_count ≡ 0)
    × (plain_issue.author ≢ none)
    × IsMaintained plain_issue.author_association)
skip_reason-none_iff_example = skip_reason-none_iff plain_issue default_labels

taken : skip_reason plain_issue default_labels ≡ none
unfolding skip_reason carries_issuebot_label any in_strs str_eq lower is_maintainer
taken = refl

edits_by_author : All (λ edit. edited_by "Ada" edit ≡ true) auto_labelled.edits
unfolding edited_by lower str_eq
edits_by_author = (refl, tt)

skip_reason-authorship_example :
    assess_authorship auto_labelled plain_issue.author plain_issue.author_association
      (label_by "issuebot/triage-todo" "bot" 100)
    ≡ approved "Ada" 100
skip_reason-authorship_example =
    skip_reason-authorship plain_issue default_labels "Ada" auto_labelled
      (label_by "issuebot/triage-todo" "bot" 100) taken refl edits_by_author
