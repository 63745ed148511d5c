-- ===== src/Orchestrator/Worker/Tables.antt =====
-- What the methods of orchestrator/orchestrator.py do to the two tables, of runs and of retries.
use issuebot.Prelude.{String, refl, not}
use issuebot.Prelude.Float.{Float}
use issuebot.Prelude.Dict.{Dict}
use issuebot.GitHub.Models.{Issue}
use issuebot.GitHub.Adapter.{Exec, pure, GitHubAdapter, ◌>>=◌, ◌>>◌}
use issuebot.Orchestrator.Admission.Gate.{RefusalKind}
use issuebot.Orchestrator.Runtime.{RunningEntry, RetryEntry}
use issuebot.Orchestrator.Actions.{World, EscapeOutcome, applied, skipped, failed, BudgetLimit}
use issuebot.Orchestrator.Admission.Ledger.{get}
use issuebot.Orchestrator.Actions.Escapes.{budget_escape}
use issuebot.Orchestrator.Actions.Effects.{Keeps, bind-Keeps, then_pure-Keeps}
use issuebot.Orchestrator.Worker.{Worker, Clock, record_escape}
use issuebot.Orchestrator.Worker.Effects.{Orch, outside, update, inspect}
use issuebot.Orchestrator.Worker.Refusals.{
  note_refusal, note_escalation, note_budget_escape, note_held, ask_human, hand_to_human,
  handle_refusal,
}

abbrev pub Tables : Type 0
Tables = Dict RunningEntry × Dict RetryEntry

module _ {F S G : Type 0} where
  abbrev pub tables : Orch F S G → Tables
  tables u = (u.0.running, u.0.retries)

  -- The tables stay as they are.
  abbrev pub KeepsTables : {A : Type 0} → Exec (Orch F S G) A → Type 0
  KeepsTables m = Keeps tables m

  pub outside-Keeps : {A : Type 0} (m : Exec (World S G) A) → KeepsTables (outside m)
  unfolding outside
  outside-Keeps m u = refl

  pub inspect-Keeps : KeepsTables inspect
  unfolding inspect
  inspect-Keeps u = refl

  pub then-Keeps :
      {A B : Type 0} (m : Exec (Orch F S G) A) (n : Exec (Orch F S G) B)
      → KeepsTables m
      → KeepsTables n
      → KeepsTables (m >> n)
  then-Keeps m n h k = bind-Keeps tables m (λ _. n) h (λ _. k)

  pub then_return-Keeps :
      {A B : Type 0} (m : Exec (Orch F S G) A) (x : B) → KeepsTables m → KeepsTables (m >> pure x)
  then_return-Keeps m x h = then_pure-Keeps tables m x h

  pub inspect_then-Keeps :
      {A : Type 0} (k : Worker F → Exec (Orch F S G) A)
      → ((w : Worker F) → KeepsTables (k w))
      → KeepsTables (inspect >>= k)
  inspect_then-Keeps k h = bind-Keeps tables inspect k inspect-Keeps h

  pub outside_then-Keeps :
      {A B : Type 0} (m : Exec (World S G) A) (k : A → Exec (Orch F S G) B)
      → ((x : A) → KeepsTables (k x))
      → KeepsTables (outside m >>= k)
  outside_then-Keeps m k h = bind-Keeps tables (outside m) k (outside-Keeps m) h

  module _ ⦃f : Float F⦄ where
    pub record_escape-Keeps :
        (identifier : String) (outcome : EscapeOutcome)
        → KeepsTables (update (record_escape identifier outcome))
    unfolding update record_escape
    record_escape-Keeps identifier applied u = refl
    record_escape-Keeps identifier skipped u = refl
    record_escape-Keeps identifier failed u = refl

    note_budget_escape-Keeps :
        (issue : Issue) (outcome : EscapeOutcome)
        → KeepsTables (update (note_budget_escape issue outcome))
    unfolding update note_budget_escape note_escalation record_escape
    note_budget_escape-Keeps issue applied u = refl
    note_budget_escape-Keeps issue skipped u = refl
    note_budget_escape-Keeps issue failed u = refl

    note_refusal-Keeps :
        (issue : Issue) (reason : String) → KeepsTables (update (note_refusal issue reason))
    unfolding update note_refusal
    note_refusal-Keeps issue reason u = refl

    module _ (a : GitHubAdapter (World S G)) (clock : Clock) where
      hand_to_human-Keeps :
          (issue : Issue) (limit : BudgetLimit) (reason : String)
          → KeepsTables (hand_to_human a clock issue limit reason)
      unfolding hand_to_human ask_human
      hand_to_human-Keeps issue limit reason =
          then-Keeps (update (note_refusal issue reason))
            (inspect >>= ask_human a clock issue limit reason) (note_refusal-Keeps issue reason)
            (inspect_then-Keeps (ask_human a clock issue limit reason) (λ w.
              outside_then-Keeps
                (budget_escape a limit reason clock.now
                  (not (get w.ledger issue.identifier).escalated) issue.id)
                (λ outcome. update (note_budget_escape issue outcome))
                (note_budget_escape-Keeps issue)))

      pub handle_refusal-Keeps :
          (issue : Issue) (kind : RefusalKind) (reason : String)
          → KeepsTables (handle_refusal a clock issue kind reason)
      unfolding handle_refusal update note_held
      handle_refusal-Keeps issue RefusalKind.attempts reason =
          hand_to_human-Keeps issue BudgetLimit.attempts reason
      handle_refusal-Keeps issue RefusalKind.spend reason =
          hand_to_human-Keeps issue BudgetLimit.spend reason
      handle_refusal-Keeps issue kind reason = λ u. refl
