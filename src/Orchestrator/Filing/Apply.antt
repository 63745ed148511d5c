-- ===== src/Orchestrator/Filing/Apply.antt =====
-- `apply_verdict` of orchestrator/triage.py. Its world is the bus, `S` for what the sinks change, and
-- `G` for GitHub and all the rest; `on_swapped` is the caller's callback.
use issuebot.Prelude.{ℕ, String, none, some, List, [], ◌∷◌, Bool, length, if◌then◌else◌}
use issuebot.Prelude.Float.{Float}
use issuebot.GitHub.Models.{Issue, SubIssue}
use issuebot.GitHub.Adapter.{Exec, ok, pure, GitHubAdapter, ◌>>=◌, ◌>>◌}
use issuebot.Agent.Verdict.{SubIssueDraft, TriageVerdict, fits, split}
use issuebot.Events.{Event, state_changed, by_issuebot}
use issuebot.Events.Bus.{EventBus, publish}
use issuebot.Orchestrator.Triage.{sub_issue_body, verdict_note, verdict_comment, by_key, RunNote}
use issuebot.Orchestrator.Filing.{file_steps}

module _ {S G : Type 0} where
  -- `bus.publish(event)`, which does not raise
  unfoldable pub announce : Event → Exec ((EventBus S × S) × G) (Unit {0})
  announce event ((bus, s), g) = (ok tt, (publish bus event s, g))

module _ {S G : Type 0} (a : GitHubAdapter ((EventBus S × S) × G)) (issue : Issue)
    (verdict : TriageVerdict) where
  abbrev pub step_text : ℕ → SubIssueDraft → String
  step_text step draft =
      sub_issue_body draft issue.number step (length verdict.sub_issues) a.labels "issuebot triage"

  -- The part under `if verdict.verdict == "split"`.
  unfoldable pub file_verdict : Exec ((EventBus S × S) × G) (List SubIssue)
  file_verdict = elim verdict.verdict [
    | fits ↦ pure []
    | split ↦ do
      children ← a.sub_issues issue.number
      file_steps a issue.number step_text 1 (by_key [] children) verdict.sub_issues
  ]

  unfoldable pub moved_by_triage : Event
  moved_by_triage = state_changed (record {
    issue_number = issue.number;
    issue_identifier = issue.identifier;
    from_label = some a.labels.triage_todo;
    to_label = some a.labels.triage_complete;
    actor = by_issuebot;
    pr_url = none;
    note = some (verdict_note verdict);
  })

  module _ {F : Type 0} ⦃f : Float F⦄ (run : RunNote F)
      (on_swapped : (EventBus S × S) × G → (EventBus S × S) × G) (swapped : Bool) where
    -- The label swap, its announcement and the comment.
    unfoldable pub finish_verdict : List SubIssue → Exec ((EventBus S × S) × G) (List SubIssue)
    unfolding announce moved_by_triage
    finish_verdict filed = do
      a.edit_labels issue.number (a.labels.triage_complete ∷ []) (a.labels.triage_todo ∷ [])
      (λ w. (ok tt, on_swapped w))
      if swapped then pure tt else announce moved_by_triage
      a.comment issue.number (verdict_comment verdict filed run a.labels)
      pure filed

    unfoldable pub apply_verdict : Exec ((EventBus S × S) × G) (List SubIssue)
    unfolding file_verdict finish_verdict
    apply_verdict = do filed ← file_verdict; finish_verdict filed

  -- The world after the verdict was applied once for each of these, whether it failed or not.
  unfoldable pub after_runs :
      {F : Type 0} ⦃f : Float F⦄
      → ((EventBus S × S) × G → (EventBus S × S) × G)
      → List (RunNote F × Bool)
      → (EventBus S × S) × G
      → (EventBus S × S) × G
  after_runs on_swapped [] w = w
  after_runs on_swapped ((run, swapped) ∷ runs) w =
      after_runs on_swapped runs (apply_verdict run on_swapped swapped w).1
