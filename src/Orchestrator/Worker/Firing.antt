-- ===== src/Orchestrator/Worker/Firing.antt =====
-- A retry that fires (`_fire` of orchestrator/orchestrator.py) keeps the two tables valid: the gate is
-- asked for a slot, and a retry that must wait goes back under its own issue.
use issuebot.Prelude.{
  ℕ, ◌<◌, String, Option, none, some, Bool, true, false, ◌≡◌, refl, arith, length,
}
use issuebot.Prelude.Float.{Float}
use issuebot.Prelude.Int.{not_pos}
use issuebot.GitHub.Models.{Issue}
use issuebot.GitHub.Adapter.{pure, attempt, GitHubAdapter, ◌>>◌}
use issuebot.Orchestrator.Admission.Ledger.{IssueLedger}
use issuebot.Orchestrator.Admission.Gate.{
  AdmissionRequest, admitted, admit, RetryKind, RunKind, OrderHold,
}
use issuebot.Orchestrator.Runtime.{RetryEntry, BlockedContext}
use issuebot.Orchestrator.Actions.{World, EscapeOutcome, applied, skipped, failed}
use issuebot.Orchestrator.Actions.Escapes.{blocked_escape}
use issuebot.Orchestrator.Actions.Finish.{
  FinishOutcome, complete, no_change, cancelled, unchanged, Workspaces, finish_terminal,
}
use issuebot.Orchestrator.Holds.Shown.{accounts_hold}
use issuebot.Orchestrator.Worker.{
  Worker, Clock, Settings, slots, admit_issue_of, requeue, record_escape,
}
use issuebot.Orchestrator.Worker.Dispatch.{Accounts, Start, dispatch}
use issuebot.Orchestrator.Worker.Retries.{
  count_finish, drop_finished, note_blocked, finish, retry_escape, fire_escape, wait_as,
  wait_for_account, fire_bound,
}
use issuebot.Orchestrator.Worker.Effects.{outside, update}
use issuebot.Orchestrator.Worker.Tables.{
  Tables, tables, KeepsTables, outside-Keeps, then_return-Keeps, outside_then-Keeps,
}
use issuebot.Orchestrator.Worker.Moves.{
  IsValid, HasRoom, IsFree, set_retry-IsValid, Moves, after-Moves, before-Moves,
}
use issuebot.Orchestrator.Worker.Invariant.{dispatch-Moves}

module _ {F : Type 0} ⦃f : Float F⦄ where
  admitted-slots :
      (r : AdmissionRequest F) (n : ℕ) (l : IssueLedger F)
      → admit r ≡ admitted n l
      → not_pos r.slots ≡ false
  unfolding admit
  admitted-slots r n l h = ground arith

  -- The gate admits only where one more run fits.
  pub admitted-room :
      (settings : Settings F) (w : Worker F) (identifier id : String) (issue : Option Issue)
      (kind : RunKind) (order : Option OrderHold) (n : ℕ) (l : IssueLedger F)
      → admit_issue_of settings w identifier id issue kind order ≡ admitted n l
      → length w.running < settings.max_concurrent_agents
  unfolding admit_issue_of slots
  admitted-room settings w identifier id issue kind order n l h =
      ground (arith, admitted-slots _ n l h)

-- A retry that has left the table: its issue does not run, and one more run fits.
abbrev pub IsReady : ℕ → String → Tables → Type 0
IsReady limit id t = IsFree limit id t × (length t.0 < limit)

module _ {F S G : Type 0} (limit : ℕ) (clock : Clock) where
  pub requeue-Moves :
      (entry : RetryEntry) (delay_ms : ℕ) (error : String) (kind : RetryKind)
      → Moves {F = F} {S = S} {G = G}
          (IsFree limit entry.issue_id)
          (IsValid limit)
          (update (requeue clock entry delay_ms error kind))
  unfolding update requeue
  requeue-Moves entry delay_ms error kind u p =
      set_retry-IsValid limit (tables u) entry.issue_id _ p

module _ {F : Type 0} ⦃f : Float F⦄ {S G : Type 0} (a : GitHubAdapter (World S G))
    (workspaces : Workspaces (World S G)) where
  drop_finished-Keeps :
      (issue : Issue) (outcome : FinishOutcome)
      → KeepsTables {F = F} {S = S} {G = G} (update (drop_finished issue outcome))
  unfolding update drop_finished count_finish
  drop_finished-Keeps issue complete u = refl
  drop_finished-Keeps issue no_change u = refl
  drop_finished-Keeps issue cancelled u = refl
  drop_finished-Keeps issue unchanged u = refl
  drop_finished-Keeps issue FinishOutcome.failed u = refl

  pub finish-Keeps : (issue : Issue) → KeepsTables {F = F} (finish a workspaces issue)
  unfolding finish
  finish-Keeps issue =
      outside_then-Keeps (finish_terminal a issue workspaces)
        (λ outcome. update (drop_finished issue outcome) >> pure outcome)
        (λ outcome.
          then_return-Keeps (update (drop_finished issue outcome)) outcome
            (drop_finished-Keeps issue outcome))

  module _ (accounts : Accounts (World S G)) (settings : Settings F) (clock : Clock) (start : Start)
      (entry : RetryEntry) where
    abbrev pub Free : Tables → Type 0
    Free = IsFree settings.max_concurrent_agents entry.issue_id

    abbrev pub Valid : Tables → Type 0
    Valid = IsValid settings.max_concurrent_agents

    note_blocked-Keeps :
        (outcome : EscapeOutcome)
        → KeepsTables {F = F} {S = S} {G = G} (update (note_blocked entry.identifier outcome))
    unfolding update note_blocked record_escape
    note_blocked-Keeps applied u = refl
    note_blocked-Keeps skipped u = refl
    note_blocked-Keeps failed u = refl

    retry_escape-Moves :
        (outcome : EscapeOutcome)
        → Moves {F = F} {S = S} {G = G} Free Valid
            (update (retry_escape a workspaces accounts settings clock start entry outcome))
    unfolding update retry_escape requeue
    retry_escape-Moves applied u p = p.0
    retry_escape-Moves skipped u p = p.0
    retry_escape-Moves failed u p =
        set_retry-IsValid settings.max_concurrent_agents (tables u) entry.issue_id _ p

    pub fire_escape-Moves :
        (context : BlockedContext)
        → Moves {F = F} Free Valid
            (fire_escape a workspaces accounts settings clock start entry context)
    unfolding fire_escape
    fire_escape-Moves context =
        after-Moves Free Valid (outside (blocked_escape a context clock.now entry.issue_id))
          (λ outcome.
            update (note_blocked entry.identifier outcome)
            >> update (retry_escape a workspaces accounts settings clock start entry outcome))
          (λ t p. p.0) (outside-Keeps (blocked_escape a context clock.now entry.issue_id))
          (λ outcome.
            after-Moves Free Valid (update (note_blocked entry.identifier outcome))
              (λ _. update (retry_escape a workspaces accounts settings clock start entry outcome))
              (λ t p. p.0) (note_blocked-Keeps outcome) (λ _. retry_escape-Moves outcome))

    wait_as-IsValid :
        (reason : Option String) (w : Worker F)
        → Free (w.running, w.retries)
        → Valid (
          (wait_as a workspaces accounts settings clock start entry reason w).running,
          (wait_as a workspaces accounts settings clock start entry reason w).retries,
        )
    unfolding wait_as requeue
    wait_as-IsValid none w p =
        set_retry-IsValid settings.max_concurrent_agents (w.running, w.retries) entry.issue_id _ p
    wait_as-IsValid (some reason) w p =
        set_retry-IsValid settings.max_concurrent_agents (w.running, w.retries) entry.issue_id _ p

    pub fire_bound-Moves :
        (issue : Issue) (attempt : ℕ) (found : Option String × Bool)
        → Moves {F = F} {S = S} {G = G}
            (IsReady settings.max_concurrent_agents entry.issue_id)
            Valid
            (fire_bound a workspaces accounts settings clock start entry issue attempt found)
    unfolding fire_bound update wait_for_account
    fire_bound-Moves issue attempt (account, false) u (p, room) =
        wait_as-IsValid (accounts_hold u.0.holds) u.0 p
    fire_bound-Moves issue attempt (account, true) u (p, room) =
        before-Moves (HasRoom settings.max_concurrent_agents) Valid
          (dispatch a accounts clock start issue attempt none) (pure tt)
          (dispatch-Moves a accounts clock start issue attempt none settings.max_concurrent_agents)
          (λ u. refl) u (p.0, room)
