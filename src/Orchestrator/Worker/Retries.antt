-- ===== src/Orchestrator/Worker/Retries.antt =====
-- orchestrator/orchestrator.py: `_finish`, `_fire` and `fire_due_retries`.
use issuebot.Prelude.{
  ℕ, ◌+◌, String, Option, none, some, List, [], ◌∷◌, Bool, true, false, map, filter, leb, ltb,
  str_eq, if◌then◌else◌, ◌==◌, ◌&&◌,
}
use issuebot.Prelude.Float.{Float}
use issuebot.Prelude.Sort.{sort}
use issuebot.Prelude.Dict.{Dict, lookup, remove}
use issuebot.Prelude.Text.{◌<>◌}
use issuebot.GitHub.Models.{Issue, opened}
use issuebot.GitHub.Adapter.{Result, ok, err, Exec, pure, attempt, GitHubAdapter, ◌>>=◌, ◌>>◌}
use issuebot.Orchestrator.Admission.Ledger.{forget}
use issuebot.Orchestrator.Admission.Gate.{RetryKind, work, Admission, admitted, refused}
use issuebot.Orchestrator.Runtime.{RetryEntry, BlockedContext, backoff_ms}
use issuebot.Orchestrator.Actions.{World, EscapeOutcome, applied, failed}
use issuebot.Orchestrator.Actions.Escapes.{blocked_escape}
use issuebot.Orchestrator.Actions.Finish.{
  FinishOutcome, complete, no_change, cancelled, Workspaces, finish_terminal,
}
use issuebot.Orchestrator.Holds.Shown.{accounts_hold}
use issuebot.Orchestrator.Worker.{
  Settings, Clock, Worker, admit_issue_of, requeue, record_escape, bump_blocked, bump_completed,
  bump_cancelled,
}
use issuebot.Orchestrator.Worker.Approvals.{forget_verdict}
use issuebot.Orchestrator.Worker.Dispatch.{Accounts, Start, bind_account, dispatch}
use issuebot.Orchestrator.Worker.Refusals.{wait_or_release}
use issuebot.Orchestrator.Worker.Effects.{Orch, outside, update, inspect}

is_failed : FinishOutcome → Bool
is_failed FinishOutcome.failed = true
is_failed _ = false

unfoldable pub is_escape : RetryKind → Bool
is_escape RetryKind.escape = true
is_escape _ = false

module _ {F : Type 0} ⦃f : Float F⦄ where
  unfoldable pub count_finish : FinishOutcome → Worker F → Worker F
  unfolding bump_completed bump_cancelled
  count_finish complete w = record w { counters = bump_completed w.counters }
  count_finish no_change w = record w { counters = bump_completed w.counters }
  count_finish cancelled w = record w { counters = bump_cancelled w.counters }
  count_finish _ w = w

  -- What the worker remembered of a closed issue goes, and its ledger unless the close has failed.
  unfoldable pub drop_finished : Issue → FinishOutcome → Worker F → Worker F
  unfolding count_finish forget_verdict is_failed
  drop_finished issue outcome w =
      let w' = forget_verdict issue.id w in
      count_finish outcome
        (if is_failed outcome then w' else record w' { ledger = forget w'.ledger issue.identifier })

  unfoldable pub note_blocked : String → EscapeOutcome → Worker F → Worker F
  unfolding record_escape bump_blocked
  note_blocked identifier applied w =
      let w' = record_escape identifier applied w in
      record w' { counters = bump_blocked w'.counters }
  note_blocked identifier outcome w = record_escape identifier outcome w

module _ {F : Type 0} ⦃f : Float F⦄ {S G : Type 0} (a : GitHubAdapter (World S G))
    (workspaces : Workspaces (World S G)) where
  -- `_finish`
  unfoldable pub finish : Issue → Exec (Orch F S G) FinishOutcome
  unfolding outside finish_terminal update drop_finished
  finish issue = outside (finish_terminal a issue workspaces) >>= λ outcome.
      update (drop_finished issue outcome) >> pure outcome

  module _ (accounts : Accounts (World S G)) (settings : Settings F) (clock : Clock) (start : Start)
      (entry : RetryEntry) where
    -- A failed escape is tried again, with the next back-off.
    unfoldable pub retry_escape : EscapeOutcome → Worker F → Worker F
    unfolding requeue backoff_ms
    retry_escape failed w =
        requeue clock (record entry { attempt = entry.attempt + 1 })
          (backoff_ms (entry.attempt + 1) settings.max_retry_backoff_ms) "blocked escape failed"
          RetryKind.escape w
    retry_escape _ w = w

    unfoldable pub fire_escape : BlockedContext → Exec (Orch F S G) (Unit {0})
    unfolding outside blocked_escape update note_blocked retry_escape
    fire_escape context = outside (blocked_escape a context clock.now entry.issue_id) >>= λ outcome.
        update (note_blocked entry.identifier outcome) >> update (retry_escape outcome)

    unfoldable pub wait_as : Option String → Worker F → Worker F
    unfolding requeue
    wait_as none w =
        requeue clock entry settings.interval_ms "the workspace's session account is busy"
          RetryKind.slots w
    wait_as (some reason) w =
        let silent = str_eq reason "" in
        requeue clock entry settings.interval_ms
          (if silent then "the workspace's session account is busy" else reason)
          (if silent then RetryKind.slots else RetryKind.accounts) w

    -- The account was busy, or its record would not read.
    unfoldable pub wait_for_account : Worker F → Worker F
    unfolding wait_as accounts_hold
    wait_for_account w = wait_as (accounts_hold w.holds) w

    unfoldable pub fire_bound : Issue → ℕ → Option String × Bool → Exec (Orch F S G) (Unit {0})
    unfolding update wait_for_account dispatch
    fire_bound issue attempt (account, false) = update wait_for_account
    fire_bound issue attempt (account, true) =
        dispatch a accounts clock start issue attempt none >> pure tt

    unfoldable pub fire_admitted : Issue → Admission F → Exec (Orch F S G) (Unit {0})
    unfolding wait_or_release bind_account fire_bound
    fire_admitted issue (refused kind reason wait) =
        wait_or_release a clock settings entry kind reason wait (some issue)
    fire_admitted issue (admitted attempt ledger) =
        bind_account accounts issue >>= fire_bound issue attempt

    unfoldable pub fire_open : Issue → Exec (Orch F S G) (Unit {0})
    unfolding inspect fire_admitted admit_issue_of
    fire_open issue = inspect >>= λ w.
        fire_admitted issue
          (admit_issue_of settings w issue.identifier issue.id (some issue) work none)

    unfoldable pub fire_refreshed : Result (List Issue) → Exec (Orch F S G) (Unit {0})
    unfolding update requeue finish fire_open
    fire_refreshed (err e) = update (
        requeue clock entry settings.interval_ms ("retry refresh failed: " <> e.message) entry.kind)
    fire_refreshed (ok []) = pure tt
    fire_refreshed (ok (issue ∷ _)) =
        if opened issue.github_state then fire_open issue else (finish issue >> pure tt)

    -- The gate is asked before the refresh, and again with the issue.
    unfoldable pub fire_asked : Admission F → Exec (Orch F S G) (Unit {0})
    unfolding wait_or_release outside fire_refreshed attempt
    fire_asked (refused kind reason wait) =
        wait_or_release a clock settings entry kind reason wait none
    fire_asked (admitted attempt_number ledger) =
        attempt (outside (a.fetch_issues_by_ids (entry.issue_id ∷ []))) >>= fire_refreshed

    unfoldable pub fire_run : Exec (Orch F S G) (Unit {0})
    unfolding inspect fire_asked admit_issue_of
    fire_run = inspect >>= λ w.
        fire_asked (admit_issue_of settings w entry.identifier entry.issue_id none work none)

    unfoldable pub fire_as : Option BlockedContext → Exec (Orch F S G) (Unit {0})
    unfolding fire_escape fire_run is_escape
    fire_as none = fire_run
    fire_as (some context) = if is_escape entry.kind then fire_escape context else fire_run

    -- `_fire`
    unfoldable pub fire : Exec (Orch F S G) (Unit {0})
    unfolding fire_as
    fire = fire_as entry.escape

-- `retries.get(entry.issue_id) is entry`: an entry that has taken its place since is due at another time.
same_entry : RetryEntry → RetryEntry → Bool
same_entry e g =
    e.due_mono == g.due_mono && (e.attempt == g.attempt && str_eq e.identifier g.identifier)

unfoldable pub still_waits : Dict RetryEntry → RetryEntry → Bool
unfolding same_entry
still_waits retries entry = elim (lookup retries entry.issue_id) [
  | none ↦ false
  | some found ↦ same_entry found entry
]

due_first : RetryEntry → RetryEntry → Bool
due_first e g = ltb e.due_mono g.due_mono

-- The entries whose time has come, the earliest first.
unfoldable pub due_retries : ℕ → Dict RetryEntry → List RetryEntry
unfolding due_first
due_retries now retries =
    sort due_first (filter (λ entry. leb entry.due_mono now) (map (λ item. item.1) retries))

module _ {F : Type 0} where
  unfoldable pub take_retry : RetryEntry → Worker F → Worker F
  take_retry entry w = record w { retries = remove w.retries entry.issue_id }

module _ {F : Type 0} ⦃f : Float F⦄ {S G : Type 0} (a : GitHubAdapter (World S G))
    (workspaces : Workspaces (World S G)) (accounts : Accounts (World S G)) (settings : Settings F)
    (clock : Clock) (start : RetryEntry → Start) where
  unfoldable pub fire_if_waiting : RetryEntry → Worker F → Exec (Orch F S G) (Unit {0})
  unfolding still_waits update take_retry fire
  fire_if_waiting entry w =
      if still_waits w.retries entry
      then (update (take_retry entry)
          >> fire a workspaces accounts settings clock (start entry) entry)
      else pure tt

  -- The loop; a worker that is stopping leaves it.
  unfoldable pub fire_all : List RetryEntry → Exec (Orch F S G) (Unit {0})
  unfolding inspect fire_if_waiting
  fire_all [] = pure tt
  fire_all (entry ∷ entries) =
      let rest = fire_all entries in
      inspect >>= λ w. if w.stopping then pure tt else (fire_if_waiting entry w >> rest)

  unfoldable pub fire_due_retries : Exec (Orch F S G) (Unit {0})
  unfolding inspect fire_all due_retries
  fire_due_retries = inspect >>= λ w. fire_all (due_retries clock.mono w.retries)
