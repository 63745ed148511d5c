-- ===== src/Orchestrator/Triage.antt =====
-- orchestrator/triage.py: the order of a parent's steps, and filing a triage verdict.
pub mod Steps
use issuebot.Prelude.{
  ℕ, ◌+◌, String, Option, none, some, List, [], ◌∷◌, ◌++◌, map, Bool, true, false, not, ◌&&◌, ◌||◌,
  any, ◌==◌, str_eq, in_strs, length, if◌then◌else◌,
}
use issuebot.Prelude.Float.{Float}
use issuebot.Prelude.Dict.{Dict, lookup, set}
use issuebot.Prelude.Text.{lower, strip, show, ◌<>◌}
use issuebot.Config.{GitHubLabels}
use issuebot.GitHub.Models.{Instant, Issue, SubIssue, ParentSteps, opened}
use issuebot.GitHub.Adapter.{Exec, pure, GitHubAdapter, ◌>>=◌, ◌>>◌}
use issuebot.Agent.Verdict.{
  SubIssueDraft, DraftKind, issuebot_step, operator_step, TriageVerdict, fits, split,
}
use issuebot.Events.{Event, state_changed, by_issuebot}
use issuebot.Orchestrator.Stamps.{utc_stamp}

unfoldable pub plural : ℕ → String → String
plural count noun =
    if count == 1 then show count <> " " <> noun else show count <> " " <> noun <> "s"

unfoldable pub is_nil {ℓ} : {A : Type ℓ} → List A → Bool
is_nil [] = true
is_nil (_ ∷ _) = false

unfoldable pub is_triage_candidate : Issue → GitHubLabels → Bool
unfolding is_nil
is_triage_candidate issue labels =
    opened issue.github_state
    && (is_nil issue.state_labels && in_strs (lower labels.triage_todo) issue.labels)

-- The loop over `steps.sub_issues[: numbers.index(issue.number)]`; `none` when the number is not there.
unfoldable pub first_open : ℕ → List SubIssue → Option (Option ℕ)
first_open number [] = none
first_open number (step ∷ steps) =
    let rest = first_open number steps in
    if step.number == number then some none else elim rest [
      | none ↦ none
      | some later ↦ some (if opened step.state then some step.number else later)
    ]

is_parent : Option ℕ → ℕ → Bool
is_parent none number = false
is_parent (some parent) number = parent == number

-- `not triage.isdisjoint(steps.labels)`
unfoldable pub wears_triage : ParentSteps → GitHubLabels → Bool
wears_triage steps labels =
    any
      (λ label.
        str_eq label (lower labels.triage_todo) || str_eq label (lower labels.triage_complete))
      steps.labels

unfoldable pub earlier_open_step : Issue → ParentSteps → GitHubLabels → Option ℕ
unfolding is_parent
earlier_open_step issue steps labels =
    if not (is_parent issue.parent steps.number) || not (wears_triage steps labels)
    then none
    else elim (first_open issue.number steps.sub_issues) [ none ↦ none | some step ↦ step ]

unfoldable pub is_operator : DraftKind → Bool
is_operator issuebot_step = false
is_operator operator_step = true

unfoldable pub sub_issue_body : SubIssueDraft → ℕ → ℕ → ℕ → GitHubLabels → String → String
unfolding is_operator
sub_issue_body draft parent step steps labels filed_by =
    let preamble : String =
      if is_operator draft.kind
      then "**Operator step.** Do this yourself, outside issuebot, then close this issue. issuebot does not run it, even with `"
        <> labels.todo <> "`.\n\n"
      else "" in
    preamble
    <> draft.body
    <> "\n\n---\nPart of #"
    <> show parent
    <> ": step "
    <> show step
    <> " of "
    <> show steps
    <> ", filed by "
    <> filed_by
    <> "."

unfoldable pub verdict_note : TriageVerdict → String
verdict_note verdict = elim verdict.verdict [
  | fits ↦ "fits one run"
  | split ↦ "split into " <> show (length verdict.sub_issues) <> " sub-issues"
]

-- `"\n".join(lines)`
unfoldable pub join_lines : List String → String
join_lines [] = ""
join_lines (line ∷ []) = line
join_lines (line ∷ l ∷ lines) = line <> "\n" <> join_lines (l ∷ lines)

-- The numbered list of `zip(filed, drafts, strict=True)`, whose lengths are the same.
unfoldable pub filed_lines : ℕ → List SubIssue → List SubIssueDraft → List String
unfolding is_operator
filed_lines number (sub ∷ subs) (draft ∷ drafts) =
    (show number
      <> ". #"
      <> show sub.number
      <> " "
      <> sub.title
      <> (if is_operator draft.kind then " -- operator step" else ""))
    ∷ filed_lines (number + 1) subs drafts
filed_lines number _ _ = []

unfoldable pub ignored_line : String → List String
ignored_line requests =
    if str_eq requests ""
    then []
    else ("- **Requests in the issue it did not act on:** " <> requests) ∷ []

-- What a run that ended on a verdict passes on to its comment.
pub record RunNote (F : Type 0) : Type 0 where
  pub run_id : String
  pub attempt : ℕ
  pub turns : ℕ
  pub cost_usd : F
  pub now : Instant

module _ {F : Type 0} ⦃f : Float F⦄ where
  unfoldable pub run_line : RunNote F → String
  run_line run =
      "Run `"
      <> run.run_id
      <> "` (attempt "
      <> show run.attempt
      <> ", "
      <> plural run.turns "turn"
      <> ", $"
      <> f.fixed2 run.cost_usd
      <> ")."

  unfoldable pub verdict_comment : TriageVerdict → List SubIssue → RunNote F → GitHubLabels → String
  verdict_comment verdict filed run labels =
      let opening : List String = elim verdict.verdict [
        | fits ↦
            ("**Verdict: fits.** One issuebot run should finish this. Add `" <> labels.todo
              <> "` to start it.")
            ∷ []
        | split ↦
            ("**Verdict: split.** Too big for one run, so it is filed as "
              <> show (length verdict.sub_issues)
              <> " sub-issues, in order. Label every issuebot step `"
              <> labels.todo
              <> "` at once if you like: issuebot starts each only when every step before it has closed. Operator steps (`"
              <> labels.operator_step
              <> "`) are yours to do and close, and the steps after one wait for it.")
            ∷ ""
            ∷ filed_lines 1 filed verdict.sub_issues
      ] in
      join_lines (
        ("### Issuebot triage (" <> utc_stamp run.now <> ")") ∷ "" ∷ opening
        ++ ""
          ∷ verdict.summary
          ∷ ""
          ∷ ("- **Fits the limits:** " <> verdict.fits_caps)
          ∷ ("- **Lands fast:** " <> verdict.lands_fast)
          ∷ ("- **Needs a human first:** " <> verdict.needs_human)
          ∷ []
        ++ ignored_line verdict.ignored_requests
        ++ "" ∷ run_line run ∷ [])

-- `_key`
unfoldable pub key : String → String
key title = lower (strip title)

-- `{_key(child.title): child for child in children}`, added to what is there.
unfoldable pub by_key : Dict SubIssue → List SubIssue → Dict SubIssue
by_key existing [] = existing
by_key existing (child ∷ children) = by_key (set existing (key child.title) child) children
