-- ===== src/Orchestrator/Worker/Exited.antt =====
-- `handle_worker_exit` of orchestrator/orchestrator.py keeps the two tables valid.
use issuebot.Prelude.{ℕ, String, Option, none, some, ◌≡◌, refl, leb}
use issuebot.Prelude.Float.{Float}
use issuebot.Prelude.Dict.{lookup, remove, set}
use issuebot.Prelude.Text.{show, ◌<>◌}
use issuebot.GitHub.Models.{Issue}
use issuebot.GitHub.Adapter.{pure, GitHubAdapter, ◌>>=◌, ◌>>◌}
use issuebot.Orchestrator.Admission.Ledger.{get}
use issuebot.Orchestrator.Admission.Gate.{RunKind, work, triage, parent_review}
use issuebot.Orchestrator.Runtime.{RunningEntry, RetryEntry, BlockedContext}
use issuebot.Orchestrator.Actions.{World, EscapeOutcome, applied, skipped, failed}
use issuebot.Orchestrator.Actions.Escapes.{blocked_escape}
use issuebot.Orchestrator.Worker.{Worker, Clock, Settings, schedule, record_escape}
use issuebot.Orchestrator.Worker.Retries.{note_blocked, finish}
use issuebot.Orchestrator.Worker.Exits.{
  TaskEnd, task_done, task_cancelled, task_crashed, RunResult, Ending, ending_of, released,
  continued, auth_failure, usage_limit, escaped, failed_with, text_or,
}
use issuebot.Orchestrator.Worker.Endings.{
  Helpers, hold_for_auth, drop_running, note_failed, schedule_escape, schedule_failure,
  schedule_continuation, schedule_usage, take_running, final_events, announce_all, escape_with,
  escape, escape_or_retry, after_failure, auth_failed, act_on_result, act_on, exit_work, exit_kind,
  exit_task, exit_entry, handle_worker_exit, context_of, auth_message,
}
use issuebot.Orchestrator.Worker.Effects.{Orch, outside, update, inspect}
use issuebot.Orchestrator.Worker.Tables.{
  Tables, tables, KeepsTables, outside-Keeps, then_return-Keeps,
}
use issuebot.Orchestrator.Worker.Moves.{
  IsValid, IsFree, set_retry-IsValid, remove_running-IsValid, Moves, keeps-Moves, after-Moves,
  look-Moves, if-Moves,
}
use issuebot.Orchestrator.Worker.Firing.{finish-Keeps}

module _ {F : Type 0} ⦃f : Float F⦄ {S G : Type 0} (a : GitHubAdapter (World S G))
    (helpers : Helpers F S G) (settings : Settings F) (clock : Clock) where
  -- From what holds once the run has left the table to what is to hold at the end: it is there
  -- already, and a retry of the issue does not take it away.
  module _ (entry : RunningEntry) (Ended Kept : Tables → Type 0)
      (weaken : (t : Tables) → Ended t → Kept t)
      (put : (t : Tables) (plan : RetryEntry)
        → Ended t
        → Kept (t.0, set t.1 entry.issue.id plan)) where
    schedule-Moves :
        (change : Worker F → Worker F)
        → ((w : Worker F)
            → (plan : RetryEntry) × ((change w).running ≡ w.running)
              × ((change w).retries ≡ set w.retries entry.issue.id plan))
        → Moves {F = F} {S = S} {G = G} Ended Kept (update change)
    unfolding update
    schedule-Moves change h u p =
        let (plan, same, changed) = h u.0 in rw (same, changed) (put (tables u) plan p)

    schedule_escape-Moves :
        (context : BlockedContext) (outcome : EscapeOutcome)
        → Moves {F = F} {S = S} {G = G} Ended Kept
            (update (schedule_escape settings clock entry context outcome))
    unfolding schedule_escape schedule update
    schedule_escape-Moves context applied = λ u p. weaken (tables u) p
    schedule_escape-Moves context skipped = λ u p. weaken (tables u) p
    schedule_escape-Moves context failed =
        schedule-Moves (schedule_escape settings clock entry context failed) (λ w. (_, refl, refl))

    note_blocked-Keeps :
        (outcome : EscapeOutcome)
        → KeepsTables {F = F} {S = S} {G = G} (update (note_blocked entry.issue.identifier outcome))
    unfolding update note_blocked record_escape
    note_blocked-Keeps applied u = refl
    note_blocked-Keeps skipped u = refl
    note_blocked-Keeps failed u = refl

    escape_with-Moves :
        (context : BlockedContext)
        → Moves Ended Kept (escape_with a helpers settings clock entry context)
    unfolding escape_with
    escape_with-Moves context =
        after-Moves Ended Kept (outside (blocked_escape a context clock.now entry.issue.id))
          (λ outcome.
            update (note_blocked entry.issue.identifier outcome)
            >> update (schedule_escape settings clock entry context outcome))
          weaken (outside-Keeps (blocked_escape a context clock.now entry.issue.id))
          (λ outcome.
            after-Moves Ended Kept (update (note_blocked entry.issue.identifier outcome))
              (λ _. update (schedule_escape settings clock entry context outcome)) weaken
              (note_blocked-Keeps outcome) (λ _. schedule_escape-Moves context outcome))

    escape-Moves :
        (reason : String) (result : Option (RunResult F))
        → Moves Ended Kept (escape a helpers settings clock entry reason result)
    unfolding escape
    escape-Moves reason result = escape_with-Moves (context_of helpers.scrub entry reason result)

    escape_or_retry-Moves :
        (error : String) (result : Option (RunResult F)) (w : Worker F)
        → Moves Ended Kept (escape_or_retry a helpers settings clock entry error result w)
    unfolding escape_or_retry schedule_failure schedule
    escape_or_retry-Moves error result w =
        let failures = (get w.ledger entry.issue.identifier).failures in
        let reason =
          show failures <> " consecutive worker sessions failed; last error: " <> error <> "." in
        if-Moves Ended Kept (leb settings.max_attempts failures)
          (escape a helpers settings clock entry reason result)
          (update (schedule_failure settings clock entry error)) (escape-Moves reason result)
          (schedule-Moves (schedule_failure settings clock entry error) (λ w. (_, refl, refl)))

    after_failure-Moves :
        (error : String) (result : Option (RunResult F))
        → Moves Ended Kept (after_failure a helpers settings clock entry error result)
    unfolding after_failure update note_failed
    after_failure-Moves error result =
        let next = escape_or_retry a helpers settings clock entry (helpers.scrub error) result in
        after-Moves Ended Kept (update (note_failed entry)) (λ _. inspect >>= next) weaken
          (λ u. refl)
          (λ _.
            look-Moves Ended Kept next
              (λ u p. escape_or_retry-Moves (helpers.scrub error) result u.0 u p))

    auth_failed-Moves :
        (result : RunResult F)
        → Moves Ended Kept (auth_failed a helpers settings clock entry result)
    unfolding auth_failed update hold_for_auth
    auth_failed-Moves result =
        let error = text_or result.error "claude could not authenticate" in
        let message = auth_message entry error in
        after-Moves Ended Kept (update (hold_for_auth error))
          (λ _. escape a helpers settings clock entry message (some result)) weaken (λ u. refl)
          (λ _. escape-Moves message (some result))

    act_on_result-Moves :
        (result : RunResult F) (ending : Ending)
        → Moves Ended Kept (act_on_result a helpers settings clock entry result ending)
    unfolding act_on_result schedule_continuation schedule_usage schedule
    act_on_result-Moves result released = λ u p. weaken (tables u) p
    act_on_result-Moves result continued =
        schedule-Moves (schedule_continuation settings clock entry) (λ w. (_, refl, refl))
    act_on_result-Moves result auth_failure = auth_failed-Moves result
    act_on_result-Moves result usage_limit =
        schedule-Moves (schedule_usage settings clock entry result) (λ w. (_, refl, refl))
    act_on_result-Moves result (escaped reason) = escape-Moves reason (some result)
    act_on_result-Moves result (failed_with error) = after_failure-Moves error (some result)

    act_on-Moves :
        (end : TaskEnd F) (ending : Ending)
        → Moves Ended Kept (act_on a helpers settings clock entry end ending)
    unfolding act_on
    act_on-Moves (task_done result) ending = act_on_result-Moves result ending
    act_on-Moves task_cancelled (failed_with error) = after_failure-Moves error none
    act_on-Moves (task_crashed _) (failed_with error) = after_failure-Moves error none
    act_on-Moves _ _ = λ u p. weaken (tables u) p

    exit_work-Moves :
        (end : TaskEnd F) (terminal : Option Issue)
        → Moves Ended Kept (exit_work a helpers settings clock entry end terminal)
    unfolding exit_work
    exit_work-Moves end (some issue) =
        keeps-Moves Ended Kept (finish a helpers.workspaces issue >> pure tt)
          (then_return-Keeps (finish a helpers.workspaces issue) tt
            (finish-Keeps a helpers.workspaces issue))
          weaken
    exit_work-Moves end none =
        let ending = ending_of a.labels.review entry end entry.stop_cause in
        after-Moves Ended Kept (outside (announce_all (final_events entry end)))
          (λ _. act_on a helpers settings clock entry end ending) weaken
          (outside-Keeps (announce_all (final_events entry end))) (λ _. act_on-Moves end ending)

    pub exit_kind-Moves :
        (end : TaskEnd F) (kind : RunKind)
        → Moves Ended Kept (helpers.exit_other entry end)
        → Moves Ended Kept (exit_kind a helpers settings clock entry end kind)
    unfolding exit_kind
    exit_kind-Moves end work h = exit_work-Moves end entry.terminal_issue
    exit_kind-Moves end triage h = h
    exit_kind-Moves end parent_review h = h

  module _ (seconds_of : ℕ → F) (issue_id : String) (end : TaskEnd F) where
    pub take_running-tables :
        (entry : RunningEntry) (w : Worker F)
        → ((take_running settings clock seconds_of issue_id entry end w).running
            ≡ remove w.running issue_id)
          × ((take_running settings clock seconds_of issue_id entry end w).retries ≡ w.retries)
    unfolding take_running
    take_running-tables entry w =
        elim end
          as (λ e.
            ((take_running settings clock seconds_of issue_id entry e w).running
              ≡ remove w.running issue_id)
            × ((take_running settings clock seconds_of issue_id entry e w).retries ≡ w.retries)) [
              | task_done result ↦ (refl, refl)
              | task_cancelled ↦ (refl, refl)
              | task_crashed _ ↦ (refl, refl)
            ]

    module _
        (other : (entry : RunningEntry)
          → Moves
              (IsFree settings.max_concurrent_agents entry.issue.id)
              (IsValid settings.max_concurrent_agents)
              (helpers.exit_other entry end)) where
      taken-IsFree :
          (entry : RunningEntry) (w : Worker F)
          → entry.issue.id ≡ issue_id
          → IsValid settings.max_concurrent_agents (w.running, w.retries)
          → IsFree settings.max_concurrent_agents entry.issue.id (
            (take_running settings clock seconds_of issue_id entry end w).running,
            (take_running settings clock seconds_of issue_id entry end w).retries,
          )
      taken-IsFree entry w e v =
          let same = take_running-tables entry w in
          rw (same.0, same.1, e)
            (remove_running-IsValid settings.max_concurrent_agents (w.running, w.retries) issue_id
              v)

      exit_task-IsValid :
          (entry : RunningEntry) (task : Option ℕ) (u : Orch F S G)
          → entry.issue.id ≡ issue_id
          → IsValid settings.max_concurrent_agents (tables u)
          → IsValid settings.max_concurrent_agents
              (tables (exit_task a helpers settings clock seconds_of issue_id end entry task u).1)
      unfolding exit_task update drop_running
      exit_task-IsValid entry none u e v =
          (remove_running-IsValid settings.max_concurrent_agents (tables u) issue_id v).0
      exit_task-IsValid entry (some _) u e v =
          exit_kind-Moves entry (IsFree settings.max_concurrent_agents entry.issue.id)
            (IsValid settings.max_concurrent_agents) (λ t p. p.0)
            (λ t plan. set_retry-IsValid settings.max_concurrent_agents t entry.issue.id plan) end
            entry.kind (other entry)
            (take_running settings clock seconds_of issue_id entry end u.0, u.1)
            (taken-IsFree entry u.0 e v)

      exit_entry-IsValid :
          (u : Orch F S G) (found : Option RunningEntry)
          → lookup u.0.running issue_id ≡ found
          → IsValid settings.max_concurrent_agents (tables u)
          → IsValid settings.max_concurrent_agents
              (tables (exit_entry a helpers settings clock seconds_of issue_id end found u).1)
      unfolding exit_entry
      exit_entry-IsValid u none h v = v
      exit_entry-IsValid u (some entry) h v =
          exit_task-IsValid entry entry.task u (v.keyed issue_id entry h) v

      -- However a run has ended, what is done about it leaves the two tables valid.
      pub handle_worker_exit-IsValid :
          (u : Orch F S G)
          → IsValid settings.max_concurrent_agents (tables u)
          → IsValid settings.max_concurrent_agents
              (tables (handle_worker_exit a helpers settings clock seconds_of issue_id end u).1)
      unfolding handle_worker_exit
      handle_worker_exit-IsValid =
          look-Moves (IsValid settings.max_concurrent_agents)
            (IsValid settings.max_concurrent_agents)
            (λ w.
              exit_entry a helpers settings clock seconds_of issue_id end
                (lookup w.running issue_id))
            (λ u v. exit_entry-IsValid u (lookup u.0.running issue_id) refl v)
