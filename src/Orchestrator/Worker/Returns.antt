-- ===== src/Orchestrator/Worker/Returns.antt =====
-- The exit of a run in orchestrator/orchestrator.py raises nothing that its escapes and its clean-up meet.
use issuebot.Prelude.{
  String, Option, none, some, List, [], ◌∷◌, Bool, true, false, ◌≡◌, refl, if◌then◌else◌, leb,
}
use mathlib.Core.Path.{subst⁻¹}
use issuebot.Prelude.Float.{Float}
use issuebot.GitHub.Models.{Instant, Issue, StateLabel}
use issuebot.GitHub.State.{same_state, classify_closed}
use issuebot.GitHub.Adapter.{
  Result, ok, err, Exec, continue, pure, attempt, GitHubAdapter, ◌>>=◌, ◌>>◌,
}
use issuebot.Events.{Event}
use issuebot.Orchestrator.Admission.Ledger.{get}
use issuebot.Orchestrator.Admission.Gate.{RunKind, work, triage, parent_review}
use issuebot.Orchestrator.Runtime.{RunningEntry, BlockedContext}
use issuebot.Orchestrator.Filing.Apply.{announce}
use issuebot.Orchestrator.Actions.{World, applied, skipped, failed}
use issuebot.Orchestrator.Actions.Escapes.{Moved, blocked_try, blocked_end, blocked_escape}
use issuebot.Orchestrator.Actions.Effects.{after_report}
use issuebot.Orchestrator.Actions.Finish.{
  unchanged, Workspaces, finish_try, finish_result, finish_as, finish_labels, remove_workspace,
  finish_terminal,
}
use issuebot.Orchestrator.Worker.{Worker, Clock, Settings}
use issuebot.Orchestrator.Worker.Retries.{note_blocked, drop_finished, finish}
use issuebot.Orchestrator.Worker.Exits.{
  TaskEnd, task_done, task_cancelled, task_crashed, RunResult, Ending, ending_of, released,
  continued, auth_failure, usage_limit, escaped, failed_with, text_or,
}
use issuebot.Orchestrator.Worker.Endings.{
  Helpers, hold_for_auth, note_failed, schedule_escape, schedule_failure, schedule_continuation,
  schedule_usage, final_events, announce_all, escape_with, escape, escape_or_retry, after_failure,
  auth_failed, act_on_result, act_on, exit_work, exit_kind, context_of, auth_message,
}
use issuebot.Orchestrator.Worker.Effects.{Orch, outside, update, inspect}

module _ {W : Type 0} where
  -- It raises nothing.
  abbrev pub Returns : {A : Type 0} → Exec W A → Type 0
  Returns {A = A} m = (w : W) → (x : A) × ((m w).0 ≡ ok x)

  pub pure-Returns : {A : Type 0} (x : A) → Returns (pure x)
  pure-Returns x w = (x, refl)

  pub bind-Returns :
      {A B : Type 0} (m : Exec W A) (f : A → Exec W B)
      → Returns m
      → ((x : A) → Returns (f x))
      → Returns (m >>= f)
  bind-Returns {B = B} m f h k w =
      let (x, e) = h w in subst⁻¹ (λ r. (y : B) × ((continue r f (m w).1).0 ≡ ok y)) e (k x (m w).1)

  pub then-Returns :
      {A B : Type 0} (m : Exec W A) (n : Exec W B) → Returns m → Returns n → Returns (m >> n)
  then-Returns m n h k = bind-Returns m (λ _. n) h (λ _. k)

  pub if-Returns :
      {A : Type 0} (b : Bool) (m n : Exec W A)
      → Returns m
      → Returns n
      → Returns (if b then m else n)
  if-Returns true m n h k = h
  if-Returns false m n h k = k

  attempt-Returns : {A : Type 0} (m : Exec W A) → Returns (attempt m)
  unfolding attempt
  attempt-Returns m w = ((m w).0, refl)

module _ {S G : Type 0} (a : GitHubAdapter (World S G)) where
  announce-Returns : (event : Event) → Returns (announce {S = S} {G = G} event)
  unfolding announce
  announce-Returns event (bus, g) = (tt, refl)

  announce_all-Returns : (events : List Event) → Returns (announce_all {S = S} {G = G} events)
  unfolding announce_all
  announce_all-Returns [] = pure-Returns tt
  announce_all-Returns (event ∷ events) =
      then-Returns (announce event) (announce_all events) (announce-Returns event)
        (announce_all-Returns events)

  module _ (context : BlockedContext) (now : Instant) where
    blocked_end-Returns : (r : Result (Option Moved)) → Returns (blocked_end a context now r)
    unfolding blocked_end announce
    blocked_end-Returns (err e) w = (failed, refl)
    blocked_end-Returns (ok none) w = (skipped, refl)
    blocked_end-Returns (ok (some moved)) (bus, g) = (
      applied,
      rw (after_report a moved.issue.number moved.block moved.note_failure (pure applied)) refl,
    )

    blocked_escape-Returns : (issue_id : String) → Returns (blocked_escape a context now issue_id)
    unfolding blocked_escape
    blocked_escape-Returns issue_id =
        let tried = a.fetch_issues_by_ids (issue_id ∷ []) >>= blocked_try a context now in
        bind-Returns (attempt tried) (blocked_end a context now) (attempt-Returns tried)
          blocked_end-Returns

  module _ (issue : Issue) where
    finish_labels-Returns : Returns (finish_labels a issue)
    unfolding finish_labels finish_as
    finish_labels-Returns =
        let outcome = classify_closed issue a.labels in
        if-Returns (same_state issue.state (some StateLabel.complete)) (pure unchanged)
          (finish_as a issue outcome) (pure-Returns unchanged)
          (bind-Returns (attempt (finish_try a issue outcome))
            (λ result. pure (finish_result outcome result))
            (attempt-Returns (finish_try a issue outcome))
            (λ result. pure-Returns (finish_result outcome result)))

    finish_terminal-Returns :
        (workspaces : Workspaces (World S G)) → Returns (finish_terminal a issue workspaces)
    unfolding finish_terminal remove_workspace
    finish_terminal-Returns workspaces w =
        let (outcome, e) = finish_labels-Returns (workspaces.mark_finished issue.identifier w) in
        (outcome, rw e refl)

module _ {F S G : Type 0} where
  update-Returns : (change : Worker F → Worker F) → Returns (update {F = F} {S = S} {G = G} change)
  unfolding update
  update-Returns change u = (tt, refl)

  outside-Returns : {A : Type 0} (m : Exec (World S G) A) → Returns m → Returns (outside {F = F} m)
  unfolding outside
  outside-Returns m h (w, g) = h g

  pub look-Returns :
      {A : Type 0} (k : Worker F → Exec (Orch F S G) A)
      → ((w : Worker F) → Returns (k w))
      → Returns (inspect >>= k)
  unfolding inspect
  look-Returns k h u = h u.0 u

module _ {F : Type 0} ⦃f : Float F⦄ {S G : Type 0} (a : GitHubAdapter (World S G))
    (helpers : Helpers F S G) (settings : Settings F) (clock : Clock) (entry : RunningEntry) where
  escape-Returns :
      (reason : String) (result : Option (RunResult F))
      → Returns (escape a helpers settings clock entry reason result)
  unfolding escape escape_with
  escape-Returns reason result =
      let context = context_of helpers.scrub entry reason result in
      bind-Returns (outside (blocked_escape a context clock.now entry.issue.id))
        (λ outcome.
          update (note_blocked entry.issue.identifier outcome)
          >> update (schedule_escape settings clock entry context outcome))
        (outside-Returns (blocked_escape a context clock.now entry.issue.id)
          (blocked_escape-Returns a context clock.now entry.issue.id))
        (λ outcome.
          then-Returns (update (note_blocked entry.issue.identifier outcome))
            (update (schedule_escape settings clock entry context outcome))
            (update-Returns (note_blocked entry.issue.identifier outcome))
            (update-Returns (schedule_escape settings clock entry context outcome)))

  after_failure-Returns :
      (error : String) (result : Option (RunResult F))
      → Returns (after_failure a helpers settings clock entry error result)
  unfolding after_failure escape_or_retry
  after_failure-Returns error result =
      let next = escape_or_retry a helpers settings clock entry (helpers.scrub error) result in
      then-Returns (update (note_failed entry)) (inspect >>= next)
        (update-Returns (note_failed entry))
        (look-Returns next (λ w.
          let failures = (get w.ledger entry.issue.identifier).failures in
          if-Returns (leb settings.max_attempts failures) _
            (update (schedule_failure settings clock entry (helpers.scrub error)))
            (escape-Returns _ result)
            (update-Returns (schedule_failure settings clock entry (helpers.scrub error)))))

  auth_failed-Returns :
      (result : RunResult F) → Returns (auth_failed a helpers settings clock entry result)
  unfolding auth_failed
  auth_failed-Returns result =
      let error = text_or result.error "claude could not authenticate" in
      then-Returns (update (hold_for_auth error))
        (escape a helpers settings clock entry (auth_message entry error) (some result))
        (update-Returns (hold_for_auth error))
        (escape-Returns (auth_message entry error) (some result))

  act_on_result-Returns :
      (result : RunResult F) (ending : Ending)
      → Returns (act_on_result a helpers settings clock entry result ending)
  unfolding act_on_result
  act_on_result-Returns result released = pure-Returns tt
  act_on_result-Returns result continued =
      update-Returns (schedule_continuation settings clock entry)
  act_on_result-Returns result auth_failure = auth_failed-Returns result
  act_on_result-Returns result usage_limit =
      update-Returns (schedule_usage settings clock entry result)
  act_on_result-Returns result (escaped reason) = escape-Returns reason (some result)
  act_on_result-Returns result (failed_with error) = after_failure-Returns error (some result)

  act_on-Returns :
      (end : TaskEnd F) (ending : Ending)
      → Returns (act_on a helpers settings clock entry end ending)
  unfolding act_on
  act_on-Returns (task_done result) ending = act_on_result-Returns result ending
  act_on-Returns task_cancelled (failed_with error) = after_failure-Returns error none
  act_on-Returns (task_crashed _) (failed_with error) = after_failure-Returns error none
  act_on-Returns _ _ = pure-Returns tt

  finish-Returns : (issue : Issue) → Returns (finish {F = F} a helpers.workspaces issue)
  unfolding finish
  finish-Returns issue =
      bind-Returns (outside (finish_terminal a issue helpers.workspaces))
        (λ outcome. update (drop_finished issue outcome) >> pure outcome)
        (outside-Returns (finish_terminal a issue helpers.workspaces)
          (finish_terminal-Returns a issue helpers.workspaces))
        (λ outcome.
          then-Returns (update (drop_finished issue outcome)) (pure outcome)
            (update-Returns (drop_finished issue outcome)) (pure-Returns outcome))

  exit_work-Returns :
      (end : TaskEnd F) (terminal : Option Issue)
      → Returns (exit_work a helpers settings clock entry end terminal)
  unfolding exit_work
  exit_work-Returns end (some issue) =
      then-Returns (finish a helpers.workspaces issue) (pure tt) (finish-Returns issue)
        (pure-Returns tt)
  exit_work-Returns end none =
      let ending = ending_of a.labels.review entry end entry.stop_cause in
      then-Returns (outside (announce_all (final_events entry end)))
        (act_on a helpers settings clock entry end ending)
        (outside-Returns (announce_all (final_events entry end))
          (announce_all-Returns a (final_events entry end)))
        (act_on-Returns end ending)

  pub exit_kind-Returns :
      (end : TaskEnd F) (kind : RunKind)
      → Returns (helpers.exit_other entry end)
      → Returns (exit_kind a helpers settings clock entry end kind)
  unfolding exit_kind
  exit_kind-Returns end work h = exit_work-Returns end entry.terminal_issue
  exit_kind-Returns end triage h = h
  exit_kind-Returns end parent_review h = h
