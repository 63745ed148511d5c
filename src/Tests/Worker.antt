-- ===== src/Tests/Worker.antt =====
-- A run of the worker, on the board of one issue.
use issuebot.Prelude.{
  ℕ, none, some, [], ◌∷◌, false, refl, arith, inl, in_strs, any, str_eq, ◌≡◌, true,
}
use issuebot.Prelude.Float.{cents}
use issuebot.Prelude.Dict.{lookup}
use issuebot.GitHub.Models.{Issue}
use issuebot.GitHub.Adapter.{ok, pure, Exec}
use issuebot.Orchestrator.Worker.Exits.{task_cancelled}
use issuebot.Orchestrator.Worker.Shutdown.{shutdown, shutdown-empty}
use issuebot.Orchestrator.Admission.Ledger.{init}
use issuebot.Orchestrator.Holds.{no_holds}
use issuebot.Orchestrator.Worker.{Settings, Clock, Worker}
use issuebot.Agent.Accounts.{answer, Pool}
use issuebot.Orchestrator.Worker.Dispatch.{
  Accounts, Start, accounts_in_use, if_free, ask, allocated, allocate_for, bind_in,
  bind_unless_blocked, bind_account, work_run, running_entry,
}
use issuebot.Orchestrator.Worker.Separate.{bind_account-separate}
use issuebot.Orchestrator.Worker.Endings.{Helpers}
use issuebot.Orchestrator.Worker.Reconcile.{check_stalls}
use issuebot.Orchestrator.Worker.Candidates.{dispatch_candidates}
use issuebot.Orchestrator.Worker.Effects.{Orch, update, inspect}
use issuebot.Orchestrator.Worker.Tables.{tables}
use issuebot.Orchestrator.Worker.Moves.{IsValid}
use issuebot.Orchestrator.Worker.Reached.{
  candidates_swept, stalls_checked, Reaches, started, after, reached-IsValid,
}
use issuebot.Tests.Samples.{queued_issue}
use issuebot.Tests.Board.{Board, Here, board, here, no_workspaces}

abbrev settings : Settings ℕ
settings = record {
  max_concurrent_agents = 1;
  max_attempts = 3;
  max_issue_cost_usd = 500;
  max_retry_backoff_ms = 300000;
  stall_timeout_ms = 600000;
  interval_ms = 30000;
}

abbrev one_account : Accounts Here
one_account = record {
  pool = none;
  session_account = none;
  workspace_key = λ identifier. identifier;
}

abbrev helpers : Helpers ℕ ℕ Board
helpers = record {
  workspaces = no_workspaces;
  scrub = λ text. text;
  exit_other = λ entry end. pure tt;
}

abbrev idle : Worker ℕ
idle = record {
  running = [];
  retries = [];
  held = [];
  ledger = init [] 16;
  counters = record {
    runs_started = 0;
    runs_ended = 0;
    issues_completed = 0;
    issues_cancelled = 0;
    blocked = 0;
  };
  totals = record { input_tokens = 0; output_tokens = 0; cost_usd = 0; seconds_running = 0 };
  holds = no_holds;
  approval_verdicts = [];
  own_labels_approve = none;
  stopping = false;
}

abbrev first : Orch ℕ ℕ Board
first = (idle, here)

abbrev clock : Clock
clock = record { mono = 1000; now = 60 }

abbrev start : Issue → Start
start issue = record { run_id = "r1"; task = 1 }

abbrev swept : Orch ℕ ℕ Board
swept =
    (dispatch_candidates ⦃f = cents⦄ board one_account settings clock start (λ issue w. some none)
      (some (queued_issue ∷ [])) (some []) first).1

abbrev checked : Orch ℕ ℕ Board
checked = (update (check_stalls settings clock) swept).1

idle-IsValid : IsValid 1 (tables first)
unfolding lookup
idle-IsValid = record {
  apart = λ id. inl refl;
  keyed = λ id entry h. ground (arith, h);
  bounded = omega arith;
}

first-Reaches : Reaches ⦃f = cents⦄ board helpers one_account settings (λ ms. ms) first checked
first-Reaches =
    after swept checked
      (after first swept started (
        candidates_swept clock start (λ issue w. some none) (some (queued_issue ∷ [])) (some [])
          first))
      (stalls_checked clock swept)

reached-IsValid_example : IsValid 1 (tables checked)
reached-IsValid_example =
    reached-IsValid ⦃f = cents⦄ board helpers one_account settings (λ ms. ms) first checked
      (λ clock entry end u p. p.0) first-Reaches idle-IsValid

-- One issue runs already, as `agent1`.
abbrev busy_worker : Worker ℕ
busy_worker = record idle {
  running =
      (
        "I_9",
        running_entry clock (start queued_issue) queued_issue
            (work_run queued_issue 1 none (some "agent1")),
      )
      ∷ [];
}

abbrev second_free : Pool Here
second_free = record {
  busy_accounts = λ w. (answer [], w);
  bound = λ key w. (answer none, w);
  allocate = λ key busy w. (answer (some "agent2"), w);
}

abbrev two_accounts : Accounts Here
two_accounts = record {
  pool = some second_free;
  session_account = some "agent1";
  workspace_key = λ identifier. identifier;
}

gives_second :
    (bind_account two_accounts queued_issue (busy_worker, here)).0 ≡ ok (some "agent2", true)
unfolding bind_account inspect bind_unless_blocked ask bind_in allocate_for allocated if_free
    accounts_in_use running_entry work_run in_strs any str_eq
gives_second = refl

bind_account-separate_example : in_strs "agent2" (accounts_in_use busy_worker.running) ≡ false
bind_account-separate_example =
    bind_account-separate two_accounts queued_issue (busy_worker, here) second_free "agent2" refl
      gives_second

-- The run was cancelled.
abbrev shut : Exec (Orch ℕ ℕ Board) (Unit {0})
shut = shutdown ⦃f = cents⦄ board helpers settings clock (λ ms. ms) (λ id. task_cancelled)

shutdown-empty_example :
    ((shut (busy_worker, here)).0 ≡ ok tt)
    × ((shut (busy_worker, here)).1.0.running ≡ [])
    × ((shut (busy_worker, here)).1.0.retries ≡ [])
shutdown-empty_example =
    shutdown-empty ⦃f = cents⦄ board helpers settings clock (λ ms. ms) (λ id. task_cancelled)
      (λ entry end. (λ w. (tt, refl), λ d u p. p)) (busy_worker, here)
