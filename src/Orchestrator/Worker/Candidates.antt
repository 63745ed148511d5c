-- ===== src/Orchestrator/Worker/Candidates.antt =====
-- orchestrator/orchestrator.py: `_order_hold` and `_dispatch_candidates`. What a workspace has recorded of
-- its session is read through agent/workspace.py, an argument here.
use issuebot.Prelude.{
  ℕ, suc, String, Option, none, some, List, [], ◌∷◌, Bool, true, false, not, ◌&&◌, ◌==◌, ltb, any,
  str_eq, filter, in_strs, if◌then◌else◌,
}
use issuebot.Prelude.Float.{Float}
use issuebot.Prelude.Dict.{remove}
use issuebot.Prelude.Text.{lower}
use issuebot.Config.{GitHubLabels}
use issuebot.GitHub.Models.{Issue, todo, in_progress, ParentSteps}
use issuebot.GitHub.State.{same_state}
use issuebot.GitHub.Adapter.{ok, Exec, pure, GitHubAdapter, ◌>>=◌, ◌>>◌}
use issuebot.Orchestrator.Admission.Ledger.{observed}
use issuebot.Orchestrator.Admission.Gate.{
  RefusalKind, OrderHold, work, Admission, admitted, refused,
}
use issuebot.Orchestrator.Triage.{earlier_open_step}
use issuebot.Orchestrator.Runtime.{sort_candidates}
use issuebot.Orchestrator.Actions.{World}
use issuebot.Orchestrator.Worker.{Settings, Clock, Worker, admit_issue_of}
use issuebot.Orchestrator.Worker.Dispatch.{Accounts, Start, dispatch}
use issuebot.Orchestrator.Worker.Refusals.{handle_refusal}
use issuebot.Orchestrator.Worker.Effects.{Orch, update, inspect}

-- What `parent_steps` says of a parent; a parent that it does not return is not in the mapping.
pub data ParentAnswer : Type 0 where
  readable : ParentSteps → ParentAnswer
  unreadable : ParentAnswer

unfoldable pub answer_for : ℕ → List (ℕ × ParentAnswer) → Option ParentAnswer
answer_for number [] = none
answer_for number ((parent, answer) ∷ rest) =
    if parent == number then some answer else answer_for number rest

unfoldable pub order_applies : GitHubLabels → Issue → Bool
unfolding same_state lower in_strs
order_applies labels issue =
    same_state issue.state (some todo)
    && (elim issue.parent [ none ↦ false | some _ ↦ true ]
        && not (in_strs (lower labels.operator_step) issue.labels))

hold_behind : ℕ → Option ℕ → Option OrderHold
hold_behind parent none = none
hold_behind parent (some step) = some (record { parent = parent; waits_for = some step })

hold_for_answer : GitHubLabels → Issue → ℕ → Option ParentAnswer → Option OrderHold
unfolding hold_behind earlier_open_step
hold_for_answer labels issue parent none = none
hold_for_answer labels issue parent (some unreadable) =
    some (record { parent = parent; waits_for = none })
hold_for_answer labels issue parent (some (readable steps)) =
    hold_behind parent (earlier_open_step issue steps labels)

hold_under : GitHubLabels → Issue → ℕ → Option (List (ℕ × ParentAnswer)) → Option OrderHold
unfolding hold_for_answer answer_for
hold_under labels issue parent none = some (record { parent = parent; waits_for = none })
hold_under labels issue parent (some answers) =
    hold_for_answer labels issue parent (answer_for parent answers)

-- `none` for the answers is the read that failed.
unfoldable pub order_hold :
    GitHubLabels → Issue → Option (List (ℕ × ParentAnswer)) → Option OrderHold
unfolding order_applies hold_under
order_hold labels issue answers =
    if not (order_applies labels issue)
    then none
    else elim issue.parent [ none ↦ none | some parent ↦ hold_under labels issue parent answers ]

-- The record of a workspace's last session; `unfinished` is whether its last outcome is none or
-- `cancelled`.
pub record Session : Type 0 where
  pub issue_number : ℕ
  pub unfinished : Bool
  pub session_id : Option String
  pub attempt : ℕ

-- The session to resume and the attempt on record, from what the workspace says: `none` is an
-- `AgentError`.
unfoldable pub resume_plan : Issue → Option (Option Session) → Option (Option String × ℕ)
resume_plan issue none = none
resume_plan issue (some none) = some (none, 1)
resume_plan issue (some (some session)) =
    if (session.issue_number == issue.number) && session.unfinished
    then some (session.session_id, session.attempt)
    else some (none, 1)

-- A refusal that the next candidate would be told as well.
unfoldable pub ends_sweep : RefusalKind → Bool
ends_sweep RefusalKind.slots = true
ends_sweep RefusalKind.hold = true
ends_sweep RefusalKind.stopping = true
ends_sweep _ = false

module _ {F : Type 0} where
  unfoldable pub forget_held : Issue → Worker F → Worker F
  forget_held issue w = record w { held = remove w.held issue.id }

  -- A hold is remembered only while its issue is still a `todo` one.
  unfoldable pub keep_held : List Issue → Worker F → Worker F
  unfolding same_state
  keep_held issues w = record w {
    held =
        filter
          (λ item.
            any (λ issue. str_eq issue.id item.0)
              (filter (λ issue. same_state issue.state (some todo)) issues))
          w.held;
  }

module _ {F : Type 0} ⦃f : Float F⦄ (settings : Settings F) where
  unfoldable pub note_observed : Issue → ℕ → Worker F → Worker F
  note_observed issue recorded w = record w {
    ledger = observed w.ledger issue.identifier recorded settings.max_attempts;
  }

module _ {F : Type 0} ⦃f : Float F⦄ {S G : Type 0} (a : GitHubAdapter (World S G))
    (accounts : Accounts (World S G)) (settings : Settings F) (clock : Clock)
    (start : Issue → Start) (sessions : Issue → World S G → Option (Option Session)) where
  -- `later` is the rest of the sweep; the result counts the runs that were started.
  unfoldable pub start_one : Issue → ℕ → Option String → Exec (Orch F S G) ℕ → Exec (Orch F S G) ℕ
  unfolding dispatch
  start_one issue attempt session later =
      dispatch a accounts clock (start issue) issue attempt session >>= λ started.
      later >>= λ n. pure (if started then suc n else n)

  unfoldable pub readmitted :
      Issue → Option String → Exec (Orch F S G) ℕ → Admission F → Exec (Orch F S G) ℕ
  unfolding handle_refusal start_one
  readmitted issue session later (refused kind reason wait) =
      handle_refusal a clock issue kind reason >> later
  readmitted issue session later (admitted attempt ledger) = start_one issue attempt session later

  -- The record of a workspace is folded into the ledger, and the gate asked again.
  unfoldable pub resume_with :
      Issue → ℕ → Exec (Orch F S G) ℕ → Option (Option String × ℕ) → Exec (Orch F S G) ℕ
  unfolding update note_observed inspect readmitted admit_issue_of start_one
  resume_with issue attempt later none = later
  resume_with issue attempt later (some (session, recorded)) =
      if ltb attempt recorded
      then (update (note_observed settings issue recorded)
          >> (inspect >>= λ w.
              readmitted issue session later
                (admit_issue_of settings w issue.identifier issue.id (some issue) work none)))
      else start_one issue attempt session later

  -- What the workspace of an issue has recorded.
  unfoldable pub recorded : Issue → Exec (Orch F S G) (Option (Option Session))
  recorded issue (w, g) = (ok (sessions issue g), (w, g))

  unfoldable pub sweep_one : Issue → Exec (Orch F S G) ℕ → Admission F → Exec (Orch F S G) ℕ
  unfolding handle_refusal ends_sweep update forget_held recorded resume_plan resume_with start_one
      same_state
  sweep_one issue later (refused kind reason wait) =
      if ends_sweep kind then pure 0 else (handle_refusal a clock issue kind reason >> later)
  sweep_one issue later (admitted attempt ledger) =
      update (forget_held issue)
      >> (if same_state issue.state (some in_progress)
          then (recorded issue >>= λ found.
              resume_with issue attempt later (resume_plan issue found))
          else start_one issue attempt none later)

  unfoldable pub sweep : Option (List (ℕ × ParentAnswer)) → List Issue → Exec (Orch F S G) ℕ
  unfolding inspect sweep_one admit_issue_of order_hold
  sweep answers [] = pure 0
  sweep answers (issue ∷ issues) =
      let later = sweep answers issues in
      inspect >>= λ w. sweep_one issue later (
        admit_issue_of settings w issue.identifier issue.id (some issue) work
          (order_hold a.labels issue answers))

  -- `none` for the issues is the poll that failed.
  unfoldable pub dispatch_candidates :
      Option (List Issue) → Option (List (ℕ × ParentAnswer)) → Exec (Orch F S G) ℕ
  unfolding update keep_held sweep sort_candidates
  dispatch_candidates none answers = pure 0
  dispatch_candidates (some issues) answers =
      update (keep_held issues) >> sweep answers (sort_candidates issues)
