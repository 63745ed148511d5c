-- ===== src/Orchestrator/Worker/Endings.antt =====
-- orchestrator/orchestrator.py: `handle_worker_exit` and what it does about each ending. The exits of a
-- triage run and of a parent review are parameters, and so is the scrubber.
use issuebot.Prelude.{ℕ, ◌-◌, String, Option, none, some, List, [], ◌∷◌, leb, str_eq, if◌then◌else◌}
use issuebot.Prelude.Int.{pos}
use issuebot.Prelude.Float.{Float}
use issuebot.Prelude.Dict.{lookup, remove}
use issuebot.Prelude.Text.{◌<>◌, show}
use issuebot.GitHub.Models.{Issue, opened}
use issuebot.GitHub.Adapter.{Exec, pure, GitHubAdapter, ◌>>=◌, ◌>>◌}
use issuebot.Events.{Event}
use issuebot.Orchestrator.Admission.Ledger.{get, attempt, spent, failed as failed_run, cleared}
use issuebot.Orchestrator.Admission.Gate.{RetryKind, RunKind, work}
use issuebot.Orchestrator.Runtime.{
  RunningEntry, BlockedContext, add_result, backoff_ms, continuation_delay_ms, observe_transition,
}
use issuebot.Orchestrator.Filing.Apply.{announce}
use issuebot.Orchestrator.Actions.{World, EscapeOutcome, failed}
use issuebot.Orchestrator.Actions.Escapes.{blocked_escape}
use issuebot.Orchestrator.Actions.Finish.{Workspaces}
use issuebot.Orchestrator.Holds.{hold_dispatch}
use issuebot.Orchestrator.Holds.Usage.{hold_usage, usage_delay_ms}
use issuebot.Orchestrator.Worker.{Settings, Clock, Worker, schedule, bump_ended}
use issuebot.Orchestrator.Worker.Retries.{finish, note_blocked}
use issuebot.Orchestrator.Worker.Exits.{
  succeeded, RunResult, TaskEnd, task_done, text_or, Ending, released, continued, auth_failure,
  usage_limit, escaped, failed_with, ending_of,
}
use issuebot.Orchestrator.Worker.Effects.{Orch, outside, update, inspect}

-- What the worker is given besides GitHub.
pub record Helpers (F S G : Type 0) : Type 0 where
  pub workspaces : Workspaces (World S G)
  pub scrub : String → String
  pub exit_other : RunningEntry → TaskEnd F → Exec (Orch F S G) (Unit {0})

result_of : {F : Type 0} → TaskEnd F → Option (RunResult F)
result_of (task_done result) = some result
result_of _ = none

scrubbed_dir : (String → String) → Option String → Option String
scrubbed_dir scrub none = none
scrubbed_dir scrub (some dir) = if str_eq dir "" then none else some (scrub dir)

log_dir_of : {F : Type 0} → Option (RunResult F) → Option String
log_dir_of none = none
log_dir_of (some result) = result.log_dir

-- `result.turns if result is not None else entry.turns`
turns_of : {F : Type 0} → RunningEntry → Option (RunResult F) → ℕ
turns_of entry none = entry.turns
turns_of entry (some result) = result.turns

unfoldable pub context_of :
    {F : Type 0} → (String → String) → RunningEntry → String → Option (RunResult F) → BlockedContext
unfolding scrubbed_dir log_dir_of turns_of
context_of scrub entry reason result = record {
  reason = scrub reason;
  run_id = entry.run_id;
  attempt = entry.attempt;
  turns = turns_of entry result;
  log_dir = scrubbed_dir scrub (log_dir_of result);
}

unfoldable pub auth_message : RunningEntry → String → String
auth_message entry error =
    "Claude could not authenticate in attempt "
    <> show entry.attempt
    <> ", so the run failed: "
    <> error
    <> ". The worker has stopped claiming issues and re-checks the credential every poll; "
    <> "it resumes on its own once `claude auth status` reports a login."

module _ {F : Type 0} where
  unfoldable pub hold_for_auth : String → Worker F → Worker F
  unfolding hold_dispatch
  hold_for_auth error w = record w { holds = hold_dispatch w.holds error }

  unfoldable pub drop_running : String → Worker F → Worker F
  drop_running issue_id w = record w { running = remove w.running issue_id }

module _ {F : Type 0} ⦃f : Float F⦄ where
  unfoldable pub note_failed : RunningEntry → Worker F → Worker F
  note_failed entry w = record w { ledger = failed_run w.ledger entry.issue.identifier }

module _ {F : Type 0} ⦃f : Float F⦄ (settings : Settings F) (clock : Clock) where
  unfoldable pub schedule_escape :
      RunningEntry → BlockedContext → EscapeOutcome → Worker F → Worker F
  unfolding schedule backoff_ms
  schedule_escape entry context failed w =
      schedule clock entry.issue
        (record {
          attempt = 1;
          kind = RetryKind.escape;
          delay_ms = backoff_ms 1 settings.max_retry_backoff_ms;
          error = some "blocked escape failed";
          escape = some context;
        })
        w
  schedule_escape entry context _ w = w

  unfoldable pub schedule_failure : RunningEntry → String → Worker F → Worker F
  unfolding schedule backoff_ms attempt
  schedule_failure entry error w =
      let next = attempt (get w.ledger entry.issue.identifier) in
      schedule clock entry.issue
        (record {
          attempt = next;
          kind = RetryKind.failure;
          delay_ms = backoff_ms next settings.max_retry_backoff_ms;
          error = some error;
          escape = none;
        })
        w

  unfoldable pub schedule_continuation : RunningEntry → Worker F → Worker F
  unfolding schedule attempt
  schedule_continuation entry w =
      let w' = record w { ledger = cleared w.ledger entry.issue.identifier } in
      schedule clock entry.issue
        (record {
          attempt = attempt (get w'.ledger entry.issue.identifier);
          kind = RetryKind.continuation;
          delay_ms = continuation_delay_ms;
          error = none;
          escape = none;
        })
        w'

  unfoldable pub schedule_usage : RunningEntry → RunResult F → Worker F → Worker F
  unfolding hold_usage usage_delay_ms schedule text_or
  schedule_usage entry result w =
      let error = text_or result.error "claude refused the turn: usage limit reached" in
      let holds =
        hold_usage w.holds clock.now settings.interval_ms error result.usage_reset_at
          result.usage_window in
      schedule clock entry.issue
        (record {
          attempt = entry.attempt;
          kind = RetryKind.usage;
          delay_ms = usage_delay_ms holds clock.now settings.interval_ms;
          error = some error;
          escape = none;
        })
        (record w { holds = holds })

  -- The run leaves the table, and its turns and cost are the issue's, however it ended.
  -- `seconds_of` turns milliseconds into seconds.
  unfoldable pub take_running : (ℕ → F) → String → RunningEntry → TaskEnd F → Worker F → Worker F
  unfolding bump_ended add_result
  take_running seconds_of issue_id entry (task_done result) w = record w {
    running = remove w.running issue_id;
    counters = bump_ended w.counters;
    totals = add_result w.totals result.figures;
    ledger = spent w.ledger entry.issue.identifier (pos result.turns) result.figures.cost_usd;
  }
  take_running seconds_of issue_id entry _ w =
      let elapsed = seconds_of (clock.mono - entry.started_mono) in
      record w {
        running = remove w.running issue_id;
        counters = bump_ended w.counters;
        totals = record w.totals {
          seconds_running = f.round (f.add w.totals.seconds_running elapsed) 3;
        };
      }

-- The issue of a run's last refresh, where it is open.
pub final_events : {F : Type 0} → RunningEntry → TaskEnd F → List Event
unfolding observe_transition
final_events entry (task_done result) = elim result.outcome [
  | succeeded ↦ elim result.final_issue [
    | none ↦ []
    | some final ↦ if opened final.github_state then observe_transition entry.issue final else []
  ]
  | _ ↦ []
]
final_events entry _ = []

unfoldable pub announce_all : {S G : Type 0} → List Event → Exec (World S G) (Unit {0})
unfolding announce
announce_all [] = pure tt
announce_all (event ∷ events) = announce event >> announce_all events

module _ {F : Type 0} ⦃f : Float F⦄ {S G : Type 0} (a : GitHubAdapter (World S G))
    (helpers : Helpers F S G) (settings : Settings F) (clock : Clock) where
  module _ (entry : RunningEntry) where
    unfoldable pub escape_with : BlockedContext → Exec (Orch F S G) (Unit {0})
    unfolding outside blocked_escape update note_blocked schedule_escape
    escape_with context = outside (blocked_escape a context clock.now entry.issue.id) >>= λ outcome.
        update (note_blocked entry.issue.identifier outcome)
        >> update (schedule_escape settings clock entry context outcome)

    -- `_escape`
    unfoldable pub escape : String → Option (RunResult F) → Exec (Orch F S G) (Unit {0})
    unfolding context_of escape_with
    escape reason result = escape_with (context_of helpers.scrub entry reason result)

    unfoldable pub escape_or_retry :
        String → Option (RunResult F) → Worker F → Exec (Orch F S G) (Unit {0})
    unfolding escape update schedule_failure
    escape_or_retry error result w =
        let failures = (get w.ledger entry.issue.identifier).failures in
        if leb settings.max_attempts failures
        then escape
            (show failures <> " consecutive worker sessions failed; last error: " <> error <> ".")
            result
        else update (schedule_failure settings clock entry error)

    -- `_after_failure`: the chain is on the ledger.
    unfoldable pub after_failure : String → Option (RunResult F) → Exec (Orch F S G) (Unit {0})
    unfolding update note_failed inspect escape_or_retry
    after_failure error result =
        update (note_failed entry) >> (inspect >>= escape_or_retry (helpers.scrub error) result)

    -- `_auth_failed`
    unfoldable pub auth_failed : RunResult F → Exec (Orch F S G) (Unit {0})
    unfolding update hold_for_auth escape text_or auth_message
    auth_failed result =
        let error = text_or result.error "claude could not authenticate" in
        update (hold_for_auth error) >> escape (auth_message entry error) (some result)

    -- What is done about an ending; only a finished task has one that needs its result.
    unfoldable pub act_on_result : RunResult F → Ending → Exec (Orch F S G) (Unit {0})
    unfolding update schedule_continuation schedule_usage auth_failed escape after_failure
    act_on_result result released = pure tt
    act_on_result result continued = update (schedule_continuation settings clock entry)
    act_on_result result auth_failure = auth_failed result
    act_on_result result usage_limit = update (schedule_usage settings clock entry result)
    act_on_result result (escaped reason) = escape reason (some result)
    act_on_result result (failed_with error) = after_failure error (some result)

    unfoldable pub act_on : TaskEnd F → Ending → Exec (Orch F S G) (Unit {0})
    unfolding act_on_result after_failure
    act_on (task_done result) ending = act_on_result result ending
    act_on _ (failed_with error) = after_failure error none
    act_on _ _ = pure tt

    unfoldable pub exit_work : TaskEnd F → Option Issue → Exec (Orch F S G) (Unit {0})
    unfolding finish outside announce_all final_events ending_of act_on
    exit_work end (some issue) = finish a helpers.workspaces issue >> pure tt
    exit_work end none =
        outside (announce_all (final_events entry end))
        >> act_on end (ending_of a.labels.review entry end entry.stop_cause)

    unfoldable pub exit_kind : TaskEnd F → RunKind → Exec (Orch F S G) (Unit {0})
    unfolding exit_work
    exit_kind end work = exit_work end entry.terminal_issue
    exit_kind end _ = helpers.exit_other entry end

  module _ (seconds_of : ℕ → F) (issue_id : String) (end : TaskEnd F) where
    unfoldable pub exit_task : RunningEntry → Option ℕ → Exec (Orch F S G) (Unit {0})
    unfolding update take_running exit_kind drop_running
    exit_task entry none = update (drop_running issue_id)
    exit_task entry (some _) =
        update (take_running settings clock seconds_of issue_id entry end)
        >> exit_kind entry end entry.kind

    unfoldable pub exit_entry : Option RunningEntry → Exec (Orch F S G) (Unit {0})
    unfolding exit_task
    exit_entry none = pure tt
    exit_entry (some entry) = exit_task entry entry.task

    -- `handle_worker_exit`
    unfoldable pub handle_worker_exit : Exec (Orch F S G) (Unit {0})
    unfolding inspect exit_entry
    handle_worker_exit = inspect >>= λ w. exit_entry (lookup w.running issue_id)
