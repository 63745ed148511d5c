-- ===== src/Orchestrator/Worker/Refusals.antt =====
-- orchestrator/orchestrator.py: what a refusal of the gate costs an issue and a waiting retry.
use issuebot.Prelude.{String, Option, none, some, not}
use issuebot.Prelude.Float.{Float}
use issuebot.Prelude.Dict.{set}
use issuebot.GitHub.Models.{Issue}
use issuebot.GitHub.Adapter.{Exec, pure, GitHubAdapter, ◌>>=◌, ◌>>◌}
use issuebot.Orchestrator.Admission.Ledger.{get, refused, escalate}
use issuebot.Orchestrator.Admission.Gate.{RetryKind, RefusalKind}
use issuebot.Orchestrator.Runtime.{RetryEntry}
use issuebot.Orchestrator.Actions.{World, EscapeOutcome, applied, BudgetLimit}
use issuebot.Orchestrator.Actions.Escapes.{budget_escape}
use issuebot.Orchestrator.Worker.{Settings, Clock, Worker, bump_blocked, requeue, record_escape}
use issuebot.Orchestrator.Worker.Effects.{Orch, outside, update, inspect}

module _ {F : Type 0} where
  -- A worker that is stopping puts the entry back.
  unfoldable pub put_back : RetryEntry → Worker F → Worker F
  put_back entry w = record w { retries = set w.retries entry.issue_id entry }

module _ {F : Type 0} ⦃f : Float F⦄ where
  -- The refusal is noted on the ledger, which is what knows whether it has been reported.
  unfoldable pub note_refusal : Issue → String → Worker F → Worker F
  note_refusal issue reason w = record w { ledger = (refused w.ledger issue.identifier reason).0 }

  unfoldable pub note_escalation : Issue → EscapeOutcome → Worker F → Worker F
  unfolding bump_blocked
  note_escalation issue applied w = record w {
    ledger = (escalate w.ledger issue.identifier).0;
    counters = bump_blocked w.counters;
  }
  note_escalation issue _ w = w

  unfoldable pub note_budget_escape : Issue → EscapeOutcome → Worker F → Worker F
  unfolding note_escalation record_escape
  note_budget_escape issue outcome w =
      record_escape issue.identifier outcome (note_escalation issue outcome w)

  unfoldable pub note_held : Issue → String → Worker F → Worker F
  note_held issue reason w = record w { held = set w.held issue.id reason }

  module _ {S G : Type 0} (a : GitHubAdapter (World S G)) (clock : Clock) where
    unfoldable pub ask_human :
        Issue → BudgetLimit → String → Worker F → Exec (Orch F S G) (Unit {0})
    unfolding outside update note_budget_escape budget_escape
    ask_human issue limit reason w =
        outside (
          budget_escape a limit reason clock.now (not (get w.ledger issue.identifier).escalated)
            issue.id)
        >>= λ outcome. update (note_budget_escape issue outcome)

    unfoldable pub hand_to_human : Issue → BudgetLimit → String → Exec (Orch F S G) (Unit {0})
    unfolding update inspect note_refusal ask_human
    hand_to_human issue limit reason =
        update (note_refusal issue reason) >> (inspect >>= ask_human issue limit reason)

    unfoldable pub handle_refusal : Issue → RefusalKind → String → Exec (Orch F S G) (Unit {0})
    unfolding hand_to_human update note_held
    handle_refusal issue RefusalKind.order reason = update (note_held issue reason)
    handle_refusal issue RefusalKind.attempts reason =
        hand_to_human issue BudgetLimit.attempts reason
    handle_refusal issue RefusalKind.spend reason = hand_to_human issue BudgetLimit.spend reason
    handle_refusal issue _ reason = pure tt

    unfoldable pub release_to : Option Issue → RefusalKind → String → Exec (Orch F S G) (Unit {0})
    unfolding handle_refusal
    release_to none kind reason = pure tt
    release_to (some issue) kind reason = handle_refusal issue kind reason

    unfoldable pub wait_with :
        Settings F
        → RetryEntry
        → RefusalKind
        → String
        → Option RetryKind
        → Option Issue
        → Exec (Orch F S G) (Unit {0})
    unfolding release_to update requeue
    wait_with settings entry kind reason none issue = release_to issue kind reason
    wait_with settings entry kind reason (some wait) issue =
        update (requeue clock entry settings.interval_ms reason wait)

    unfoldable pub wait_or_release :
        Settings F
        → RetryEntry
        → RefusalKind
        → String
        → Option RetryKind
        → Option Issue
        → Exec (Orch F S G) (Unit {0})
    unfolding wait_with update put_back
    wait_or_release settings entry RefusalKind.stopping reason wait issue = update (put_back entry)
    wait_or_release settings entry kind reason wait issue =
        wait_with settings entry kind reason wait issue
