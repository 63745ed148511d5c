-- ===== src/Orchestrator/Worker/Approvals.antt =====
-- orchestrator/orchestrator.py: `_assess_approval`, which remembers the last verdict on an issue.
use issuebot.Prelude.{
  String, Option, none, some, Bool, true, false, not, ◌&&◌, ◌==◌, str_eq, if◌then◌else◌,
}
use issuebot.Prelude.Dict.{Dict, lookup, remove, set}
use issuebot.Prelude.Text.{◌<>◌}
use issuebot.GitHub.Models.{Issue, RepoInfo}
use issuebot.GitHub.Adapter.{
  GitHubError, Result, ok, err, Exec, pure, attempt, GitHubAdapter, ◌>>=◌, ◌>>◌,
}
use issuebot.Orchestrator.Approval.{Assessment, unapproved}
use issuebot.Orchestrator.Actions.{World}
use issuebot.Orchestrator.Actions.Assessing.{assess_issue, assess_triage_issue}
use issuebot.Orchestrator.Worker.{Worker, ApprovalKey}
use issuebot.Orchestrator.Worker.Effects.{Orch, outside, update, inspect}

same_text : Option String → Option String → Bool
same_text none none = true
same_text (some s) (some t) = str_eq s t
same_text _ _ = false

unfoldable pub same_key : ApprovalKey → ApprovalKey → Bool
unfolding same_text
same_key k l =
    str_eq k.label l.label
    && ((if k.authorship then l.authorship else not l.authorship)
        && (k.updated_at == l.updated_at
            && (str_eq k.title l.title
                && (same_text k.body l.body
                    && same_text k.author_association l.author_association))))

unfoldable pub key_of : Issue → String → Bool → ApprovalKey
key_of issue label authorship = record {
  label = label;
  authorship = authorship;
  updated_at = issue.updated_at;
  title = issue.title;
  body = issue.body;
  author_association = issue.author_association;
}

-- `remembered[1]` where `remembered[0] == key`
unfoldable pub remembered :
    Dict (ApprovalKey × Assessment) → String → ApprovalKey → Option Assessment
unfolding same_key
remembered verdicts issue_id key = elim (lookup verdicts issue_id) [
  | none ↦ none
  | some (last, verdict) ↦ if same_key last key then some verdict else none
]

module _ {F : Type 0} where
  unfoldable pub remember : String → ApprovalKey → Assessment → Worker F → Worker F
  remember issue_id key verdict w = record w {
    approval_verdicts = set w.approval_verdicts issue_id (key, verdict);
  }

  unfoldable pub forget_verdict : String → Worker F → Worker F
  forget_verdict issue_id w = record w { approval_verdicts = remove w.approval_verdicts issue_id }

  unfoldable pub keep_standing : Bool → Worker F → Worker F
  keep_standing admin w = record w { own_labels_approve = some admin }

unfoldable pub unreadable_history : GitHubError → Assessment
unreadable_history e =
    unapproved (e.message <> ": issuebot cannot tell what was approved") none none

module _ {F S G : Type 0} (a : GitHubAdapter (World S G)) where
  unfoldable pub keep_own_standing : RepoInfo → Exec (Orch F S G) Bool
  unfolding update keep_standing
  keep_own_standing info = update (keep_standing info.admin) >> pure info.admin

  -- Whether issuebot's own labels approve, read once per process.
  unfoldable pub own_standing : Option Bool → Exec (Orch F S G) Bool
  unfolding outside keep_own_standing
  own_standing (some admin) = pure admin
  own_standing none = outside a.repo_info >>= keep_own_standing

  unfoldable pub assess_as : Issue → String → Bool → Bool → Exec (Orch F S G) Assessment
  unfolding outside assess_issue assess_triage_issue
  assess_as issue label authorship admin = outside (
      if authorship
      then assess_triage_issue a issue label (some admin)
      else assess_issue a issue.number label (some admin))

  unfoldable pub assess_now : Issue → String → Bool → Option Bool → Exec (Orch F S G) Assessment
  unfolding own_standing assess_as
  assess_now issue label authorship own = own_standing own >>= assess_as issue label authorship

  -- A history past the page ceiling is a verdict; any other error is none, and fails closed.
  unfoldable pub keep_verdict :
      Issue → ApprovalKey → Assessment → Exec (Orch F S G) (Option Assessment)
  unfolding update remember
  keep_verdict issue key verdict = update (remember issue.id key verdict) >> pure (some verdict)

  unfoldable pub assessed :
      Issue → ApprovalKey → Result Assessment → Exec (Orch F S G) (Option Assessment)
  unfolding keep_verdict unreadable_history
  assessed issue key (ok verdict) = keep_verdict issue key verdict
  assessed issue key (err e) =
      if e.page_ceiling then keep_verdict issue key (unreadable_history e) else pure none

  unfoldable pub assess_unless_remembered :
      Issue
      → String
      → Bool
      → Option Bool
      → Option Assessment
      → Exec (Orch F S G) (Option Assessment)
  unfolding key_of assess_now assessed attempt
  assess_unless_remembered issue label authorship own (some verdict) = pure (some verdict)
  assess_unless_remembered issue label authorship own none =
      attempt (assess_now issue label authorship own)
      >>= assessed issue (key_of issue label authorship)

  -- With the label that approves.
  unfoldable pub assess_approval : Issue → String → Bool → Exec (Orch F S G) (Option Assessment)
  unfolding inspect key_of remembered assess_unless_remembered
  assess_approval issue label authorship = inspect >>= λ w.
      assess_unless_remembered issue label authorship w.own_labels_approve
        (remembered w.approval_verdicts issue.id (key_of issue label authorship))
