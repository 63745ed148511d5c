-- ===== src/Orchestrator/Filing.antt =====
-- The loop of `apply_verdict` (orchestrator/triage.py) and of `apply_parent_review`
-- (orchestrator/parent_review.py) that files a verdict's drafts as sub-issues. `text` is the body of a
-- step, which the two write differently.
pub mod Growth
pub mod Loop
pub mod Quiet
pub mod Apply
pub mod Retry
use issuebot.Prelude.{
  ℕ, suc, String, Option, none, some, List, [], ◌∷◌, Bool, true, false, if◌then◌else◌,
}
use issuebot.Prelude.Dict.{Dict, lookup, set}
use issuebot.GitHub.Models.{SubIssue}
use issuebot.GitHub.Adapter.{Exec, pure, GitHubAdapter, ◌>>=◌, ◌>>◌}
use issuebot.Agent.Verdict.{SubIssueDraft}
use issuebot.Orchestrator.Triage.{key, is_operator}

module _ {W : Type 0} (a : GitHubAdapter W) (parent : ℕ) (text : ℕ → SubIssueDraft → String) where
  -- `existing.get(_key(draft.title))`, or the child that is created and remembered.
  unfoldable pub obtain : Dict SubIssue → ℕ → SubIssueDraft → Exec W (SubIssue × Dict SubIssue)
  obtain existing step draft = elim (lookup existing (key draft.title)) [
    | none ↦ do
      child ← a.create_sub_issue parent draft.title (text step draft)
      pure (child, set existing (key draft.title) child)
    | some child ↦ pure (child, existing)
  ]

  -- The agent never chooses a label: only an operator's step is marked.
  unfoldable pub mark_step : SubIssue → SubIssueDraft → Exec W (Unit {0})
  unfolding is_operator
  mark_step child draft =
      if is_operator draft.kind
      then a.edit_labels child.number (a.labels.operator_step ∷ []) []
      else pure tt

  unfoldable pub file_steps : ℕ → Dict SubIssue → List SubIssueDraft → Exec W (List SubIssue)
  unfolding obtain mark_step
  file_steps step existing [] = pure []
  file_steps step existing (draft ∷ drafts) = do
    (child, existing') ← obtain existing step draft
    mark_step child draft
    rest ← file_steps (suc step) existing' drafts
    pure (child ∷ rest)
