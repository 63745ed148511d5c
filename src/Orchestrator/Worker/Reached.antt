-- ===== src/Orchestrator/Worker/Reached.antt =====
-- The worker of orchestrator/orchestrator.py over its life: the parts of a tick, the exits of its runs
-- and whatever else leaves the two tables alone, in any order.
use issuebot.Prelude.{ℕ, String, Option, List, ◌≡◌}
use mathlib.Core.Path.{subst⁻¹}
use issuebot.Prelude.Float.{Float}
use issuebot.GitHub.Models.{Issue}
use issuebot.GitHub.Adapter.{GitHubAdapter}
use issuebot.Orchestrator.Runtime.{RunningEntry, RetryEntry}
use issuebot.Orchestrator.Actions.{World}
use issuebot.Orchestrator.Worker.{Clock, Settings}
use issuebot.Orchestrator.Worker.Dispatch.{Accounts, Start}
use issuebot.Orchestrator.Worker.Retries.{fire_due_retries}
use issuebot.Orchestrator.Worker.Exits.{TaskEnd}
use issuebot.Orchestrator.Worker.Endings.{Helpers, handle_worker_exit}
use issuebot.Orchestrator.Worker.Reconcile.{check_stalls, refresh_running}
use issuebot.Orchestrator.Worker.Candidates.{ParentAnswer, Session, dispatch_candidates}
use issuebot.Orchestrator.Worker.Effects.{Orch, update}
use issuebot.Orchestrator.Worker.Tables.{tables}
use issuebot.Orchestrator.Worker.Moves.{IsValid, IsFree, Moves}
use issuebot.Orchestrator.Worker.Fired.{fire_due_retries-IsValid}
use issuebot.Orchestrator.Worker.Swept.{dispatch_candidates-IsValid}
use issuebot.Orchestrator.Worker.Exited.{handle_worker_exit-IsValid}
use issuebot.Orchestrator.Worker.Refreshed.{check_stalls-IsValid, refresh_running-Moves}

module _ {F : Type 0} ⦃f : Float F⦄ {S G : Type 0} (a : GitHubAdapter (World S G))
    (helpers : Helpers F S G) (accounts : Accounts (World S G)) (settings : Settings F)
    (seconds_of : ℕ → F) where
  -- One step of a worker, at some reading of the clock.
  pub data WorkerStep : Orch F S G → Orch F S G → Type 0 where
    retries_fired :
        (clock : Clock) (start : RetryEntry → Start) (u : Orch F S G)
        → WorkerStep u (fire_due_retries a helpers.workspaces accounts settings clock start u).1
    candidates_swept :
        (clock : Clock) (start : Issue → Start)
        (sessions : Issue → World S G → Option (Option Session)) (issues : Option (List Issue))
        (answers : Option (List (ℕ × ParentAnswer))) (u : Orch F S G)
        → WorkerStep u
            (dispatch_candidates a accounts settings clock start sessions issues answers u).1
    entries_refreshed :
        (clock : Clock) (u : Orch F S G) → WorkerStep u (refresh_running settings clock a u).1
    stalls_checked :
        (clock : Clock) (u : Orch F S G) → WorkerStep u (update (check_stalls settings clock) u).1
    run_exited :
        (clock : Clock) (issue_id : String) (end : TaskEnd F) (u : Orch F S G)
        → WorkerStep u (handle_worker_exit a helpers settings clock seconds_of issue_id end u).1
    -- a hold, a probe, a triage read, an operator's step
    left_alone : (u v : Orch F S G) → tables v ≡ tables u → WorkerStep u v

  -- Any number of them.
  pub data Reaches (u : Orch F S G) : Orch F S G → Type 0 where
    started : Reaches u u
    after : (v w : Orch F S G) → Reaches u v → WorkerStep v w → Reaches u w

  -- What the exits of a triage run and of a parent review may do to the tables.
  abbrev pub OthersKeep : Type 0
  OthersKeep =
      (clock : Clock) (entry : RunningEntry) (end : TaskEnd F)
      → Moves (IsFree settings.max_concurrent_agents entry.issue.id)
          (IsValid settings.max_concurrent_agents) (helpers.exit_other entry end)

  WorkerStep-IsValid :
      (u v : Orch F S G)
      → OthersKeep
      → WorkerStep u v
      → IsValid settings.max_concurrent_agents (tables u)
      → IsValid settings.max_concurrent_agents (tables v)
  unfolding update
  WorkerStep-IsValid u v o (retries_fired clock start _) h =
      fire_due_retries-IsValid a helpers.workspaces accounts settings clock start u h
  WorkerStep-IsValid u v o (candidates_swept clock start sessions issues answers _) h =
      dispatch_candidates-IsValid a accounts settings clock start sessions issues answers u h
  WorkerStep-IsValid u v o (entries_refreshed clock _) h =
      refresh_running-Moves settings clock settings.max_concurrent_agents a u h
  WorkerStep-IsValid u v o (stalls_checked clock _) h =
      check_stalls-IsValid settings clock settings.max_concurrent_agents u.0 h
  WorkerStep-IsValid u v o (run_exited clock issue_id end _) h =
      handle_worker_exit-IsValid a helpers settings clock seconds_of issue_id end
        (λ entry. o clock entry end) u h
  WorkerStep-IsValid u v o (left_alone _ _ e) h =
      subst⁻¹ (IsValid settings.max_concurrent_agents) e h

  -- Whatever GitHub, the account pool and the workspaces answer, and in whatever order retries fire,
  -- candidates are dispatched, entries are refreshed, stalls are checked, runs exit and other
  -- steps leave both tables alone: from tables
  -- that satisfy it, `IsValid` is kept, that is, at most `max_concurrent_agents` issues run, each
  -- under its own identifier, and no issue both runs and waits for a retry. The exits of a triage run
  -- and of a parent review are assumed to keep it.
  pub reached-IsValid :
      (u v : Orch F S G)
      → OthersKeep
      → Reaches u v
      → IsValid settings.max_concurrent_agents (tables u)
      → IsValid settings.max_concurrent_agents (tables v)
  reached-IsValid u v o started h = h
  reached-IsValid u v o (after m _ before step) h =
      WorkerStep-IsValid m v o step (reached-IsValid u m o before h)
