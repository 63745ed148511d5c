-- ===== src/Orchestrator/Worker/Dispatch.antt =====
-- orchestrator/orchestrator.py: `_dispatch` and the start of a run. Of agent/ it takes the account pool,
-- whose answers may be an `AgentError`, and of the runtime the identifier of a run and its task.
use issuebot.Prelude.{
  ℕ, String, Option, none, some, List, [], ◌∷◌, ◌++◌, Bool, true, false, in_strs, if◌then◌else◌,
}
use issuebot.Prelude.Float.{Float}
use issuebot.Prelude.Dict.{Dict, remove, set}
use issuebot.Prelude.Text.{lower}
use issuebot.GitHub.Models.{Issue, in_progress, rework}
use issuebot.GitHub.State.{same_state}
use issuebot.GitHub.Adapter.{ok, Exec, pure, attempt, GitHubAdapter, ◌>>=◌, ◌>>◌}
use issuebot.Agent.Accounts.{Answer, answer, agent_error, Pool}
use issuebot.Orchestrator.Admission.Ledger.{dispatched}
use issuebot.Orchestrator.Admission.Gate.{RunKind, work}
use issuebot.Orchestrator.Approval.{Assessment, approved, unapproved}
use issuebot.Orchestrator.Runtime.{RunningEntry}
use issuebot.Orchestrator.Actions.{World, EscapeOutcome, applied}
use issuebot.Orchestrator.Actions.Escapes.{claim, unapproved_escape}
use issuebot.Orchestrator.Actions.HandBack.{operator_step_escape}
use issuebot.Orchestrator.Worker.{Clock, Worker, bump_started, bump_blocked, record_escape}
use issuebot.Orchestrator.Worker.Approvals.{assess_approval, forget_verdict}
use issuebot.Orchestrator.Worker.Effects.{Orch, outside, update, inspect}

-- What `_bind_account` reads of the configuration.
pub record Accounts (W : Type 0) : Type 0 where
  pub pool : Option (Pool W)
  pub session_account : Option String
  pub workspace_key : String → String

-- The accounts of the running sessions.
unfoldable pub accounts_in_use : Dict RunningEntry → List String
accounts_in_use [] = []
accounts_in_use ((id, entry) ∷ rest) = elim entry.account [
  | none ↦ accounts_in_use rest
  | some account ↦ account ∷ accounts_in_use rest
]

module _ {F : Type 0} where
  unfoldable pub block_accounts : String → Worker F → Worker F
  block_accounts message w = record w { holds = record w.holds { accounts_block = some message } }

-- The answer of the pool, or the account that is free at once.
module _ {F S G : Type 0} where
  -- An unreadable record holds dispatch.
  unfoldable pub unbound : String → Exec (Orch F S G) (Option String × Bool)
  unfolding update block_accounts
  unbound message = update (block_accounts message) >> pure (none, false)

  -- `account is None or account in busy`
  unfoldable pub if_free : List String → Option String → Exec (Orch F S G) (Option String × Bool)
  if_free busy none = pure (none, false)
  if_free busy (some account) =
      if in_strs account busy then pure (none, false) else pure (some account, true)

  -- A call of the pool, which raises no `GitHubError`.
  unfoldable pub ask :
      {A : Type 0} → (World S G → Answer A × World S G) → Exec (Orch F S G) (Answer A)
  ask call (w, g) = let (r, g') = call g in (ok r, (w, g'))

  unfoldable pub allocated :
      List String → Answer (Option String) → Exec (Orch F S G) (Option String × Bool)
  unfolding if_free unbound
  allocated busy (answer account) = if_free busy account
  allocated busy (agent_error message) = unbound message

  module _ (pool : Pool (World S G)) (key : String) where
    unfoldable pub allocate_for :
        List String → Answer (Option String) → Exec (Orch F S G) (Option String × Bool)
    unfolding ask if_free unbound allocated
    allocate_for busy (agent_error message) = unbound message
    allocate_for busy (answer (some account)) = if_free busy (some account)
    allocate_for busy (answer none) = ask (pool.allocate key busy) >>= allocated busy

    unfoldable pub bind_in :
        List String → Answer (List String) → Exec (Orch F S G) (Option String × Bool)
    unfolding ask allocate_for unbound
    bind_in own (agent_error message) = unbound message
    bind_in own (answer others) = ask (pool.bound key) >>= allocate_for (own ++ others)

  unfoldable pub bind_unless_blocked :
      Accounts (World S G)
      → Issue
      → List String
      → Option String
      → Option (Pool (World S G))
      → Exec (Orch F S G) (Option String × Bool)
  unfolding ask bind_in
  bind_unless_blocked accounts issue own (some _) pool = pure (none, false)
  bind_unless_blocked accounts issue own none none = pure (accounts.session_account, true)
  bind_unless_blocked accounts issue own none (some pool) =
      ask pool.busy_accounts >>= bind_in pool (accounts.workspace_key issue.identifier) own

  unfoldable pub bind_account :
      Accounts (World S G) → Issue → Exec (Orch F S G) (Option String × Bool)
  unfolding inspect bind_unless_blocked accounts_in_use
  bind_account accounts issue = inspect >>= λ w.
      bind_unless_blocked accounts issue (accounts_in_use w.running) w.holds.run_as_block
        accounts.pool

-- How a run is started.
pub record Start : Type 0 where
  pub run_id : String
  pub task : ℕ

pub record Run : Type 0 where
  pub kind : RunKind
  pub attempt : ℕ
  pub account : Option String
  pub is_rework : Bool
  pub resumed : Bool
  pub steps_seen : List ℕ

unfoldable pub work_run : Issue → ℕ → Option String → Option String → Run
unfolding same_state
work_run issue attempt resume_session_id account = record {
  kind = work;
  attempt = attempt;
  account = account;
  is_rework = same_state issue.state (some rework);
  resumed = elim resume_session_id [ none ↦ false | some _ ↦ true ];
  steps_seen = [];
}

unfoldable pub running_entry : Clock → Start → Issue → Run → RunningEntry
running_entry clock start issue run = record {
  issue = issue;
  attempt = run.attempt;
  rework_run = run.is_rework;
  resumed = run.resumed;
  run_id = start.run_id;
  started_mono = clock.mono;
  started_at = clock.now;
  cancel = false;
  account = run.account;
  task = some start.task;
  session_id = none;
  last_activity_mono = none;
  last_activity_at = none;
  last_event = none;
  turns = 0;
  stop_cause = none;
  stop_detail = none;
  review_seen_mono = none;
  terminal_issue = none;
  kind = run.kind;
  steps_seen = run.steps_seen;
}

module _ {F : Type 0} ⦃f : Float F⦄ where
  unfoldable pub start_run : Clock → Start → Issue → Run → Worker F → Worker F
  unfolding running_entry bump_started
  start_run clock start issue run w = record w {
    running = set w.running issue.id (running_entry clock start issue run);
    retries = remove w.retries issue.id;
    counters = bump_started w.counters;
    ledger = dispatched w.ledger issue.identifier clock.now;
  }

  -- After an escape of the dispatch.
  unfoldable pub note_handed_back : Issue → EscapeOutcome → Worker F → Worker F
  unfolding bump_blocked record_escape
  note_handed_back issue applied w =
      record_escape issue.identifier applied (record w { counters = bump_blocked w.counters })
  note_handed_back issue outcome w = record_escape issue.identifier outcome w

  unfoldable pub drop_verdict : Issue → EscapeOutcome → Worker F → Worker F
  unfolding forget_verdict
  drop_verdict issue applied w = forget_verdict issue.id w
  drop_verdict issue _ w = w

module _ {F : Type 0} ⦃f : Float F⦄ {S G : Type 0} (a : GitHubAdapter (World S G))
    (accounts : Accounts (World S G)) (clock : Clock) (start : Start) (issue : Issue) (attempt : ℕ)
    (resume_session_id : Option String) where
  unfoldable pub start_claimed : Option String → Option Issue → Exec (Orch F S G) Bool
  unfolding update start_run work_run
  start_claimed account none = pure false
  start_claimed account (some claimed) =
      update (start_run clock start claimed (work_run issue attempt resume_session_id account))
      >> pure true

  -- An issue that is in progress already is not claimed again.
  unfoldable pub claim_and_start : Option String × Bool → Exec (Orch F S G) Bool
  unfolding outside claim start_claimed same_state
  claim_and_start (account, false) = pure false
  claim_and_start (account, true) =
      if same_state issue.state (some in_progress)
      then start_claimed account (some issue)
      else (outside (claim a issue) >>= start_claimed account)

  unfoldable pub after_unapproved : EscapeOutcome → Worker F → Worker F
  unfolding drop_verdict note_handed_back
  after_unapproved outcome w = note_handed_back issue outcome (drop_verdict issue outcome w)

  unfoldable pub dispatch_assessed : Option Assessment → Exec (Orch F S G) Bool
  unfolding outside update unapproved_escape after_unapproved bind_account claim_and_start
  dispatch_assessed none = pure false
  dispatch_assessed (some (unapproved reason approval edit)) =
      outside (unapproved_escape a issue reason approval clock.now) >>= λ outcome.
      update (after_unapproved outcome) >> pure false
  dispatch_assessed (some (approved approver at)) = bind_account accounts issue >>= claim_and_start

  unfoldable pub refuse_operator_step : Exec (Orch F S G) Bool
  unfolding outside update operator_step_escape note_handed_back
  refuse_operator_step = outside (operator_step_escape a issue clock.now) >>= λ outcome.
      update (note_handed_back issue outcome) >> pure false

  -- `_dispatch`
  unfoldable pub dispatch : Exec (Orch F S G) Bool
  unfolding refuse_operator_step assess_approval dispatch_assessed lower in_strs
  dispatch =
      if in_strs (lower a.labels.operator_step) issue.labels
      then refuse_operator_step
      else (assess_approval a issue a.labels.todo false >>= dispatch_assessed)
