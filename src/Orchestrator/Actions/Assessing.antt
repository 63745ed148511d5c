-- ===== src/Orchestrator/Actions/Assessing.antt =====
-- orchestrator/actions.py: the reads behind the approval check.
use issuebot.Prelude.{ℕ, String, Option, none, some, Bool}
use issuebot.GitHub.Models.{Issue}
use issuebot.GitHub.Adapter.{Exec, pure, GitHubAdapter, ◌>>=◌}
use issuebot.Orchestrator.Approval.{Assessment, assess, assess_triage}

module _ {W : Type 0} (a : GitHubAdapter W) where
  -- `none` reads the account's standing from the repository.
  unfoldable pub standing : Option Bool → Exec W Bool
  standing (some admin) = pure admin
  standing none = do info ← a.repo_info; pure info.admin

  unfoldable pub assess_issue : ℕ → String → Option Bool → Exec W Assessment
  unfolding standing assess
  assess_issue number todo_label own_labels_approve = do
    evidence ← a.approval_evidence number
    own_login ← a.own_login
    own ← standing own_labels_approve
    pure (assess evidence todo_label own_login own)

  unfoldable pub assess_triage_issue : Issue → String → Option Bool → Exec W Assessment
  unfolding standing assess_triage
  assess_triage_issue issue triage_label own_labels_approve = do
    evidence ← a.approval_evidence issue.number
    own_login ← a.own_login
    own ← standing own_labels_approve
    pure (assess_triage evidence triage_label own_login own issue.author issue.author_association)
