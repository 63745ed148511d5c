-- ===== src/Orchestrator/Admission/Gate.antt =====
-- The gate of orchestrator/admission.py: `admit` and the records that it reads and returns.
pub mod Decision
pub mod Ceilings
use issuebot.Prelude.{
  ℕ, ◌+◌, String, Option, none, some, Bool, true, false, not, ◌&&◌, ◌==◌, ltb, leb, if◌then◌else◌,
}
use issuebot.Prelude.Int.{ℤ, not_pos}
use issuebot.Prelude.Float.{Float}
use issuebot.Prelude.Text.{show, ◌<>◌}
use issuebot.GitHub.Models.{StateLabel, todo, Issue, Instant}
use issuebot.GitHub.State.{is_active}
use issuebot.Orchestrator.Admission.Ledger.{IssueLedger, attempt}

pub data DispatchHoldKind : Type 0 where
  preflight auth usage github accounts : DispatchHoldKind

pub data RetryKind : Type 0 where
  continuation failure escape slots auth usage github preflight accounts order : RetryKind

pub data RefusalKind : Type 0 where
  stopping hold slots busy inactive order attempts spend : RefusalKind

pub data RunKind : Type 0 where
  work triage parent_review : RunKind

pub record Hold : Type 0 where
  pub kind : DispatchHoldKind
  pub reason : String
  pub key : Option String
  pub until : Option Instant
  pub window : Option String

-- A sub-issue held behind an earlier step of its parent's split.
pub record OrderHold : Type 0 where
  pub parent : ℕ
  pub waits_for : Option ℕ

unfoldable pub order_reason : OrderHold → String
order_reason h = elim h.waits_for [
  | none ↦ "the order of #" <> show h.parent <> "'s sub-issues could not be read"
  | some step ↦ "waits for #" <> show step <> ", an earlier step of #" <> show h.parent
]

pub record AdmissionRequest (F : Type 0) : Type 0 where
  pub issue : Option Issue
  pub ledger : IssueLedger F
  pub hold : Option Hold
  pub slots : ℤ
  pub busy : Bool
  pub stopping : Bool
  pub max_attempts : ℕ
  pub max_issue_cost_usd : F
  pub kind : RunKind
  pub order : Option OrderHold

pub data Admission (F : Type 0) : Type 0 where
  -- the attempt number and the ledger
  admitted : ℕ → IssueLedger F → Admission F
  -- the kind, the reason and how a caller that can wait requeues
  refused : RefusalKind → String → Option RetryKind → Admission F

-- The retry kind that is spelled like the hold.
unfoldable pub wait_of : DispatchHoldKind → RetryKind
wait_of DispatchHoldKind.preflight = RetryKind.preflight
wait_of DispatchHoldKind.auth = RetryKind.auth
wait_of DispatchHoldKind.usage = RetryKind.usage
wait_of DispatchHoldKind.github = RetryKind.github
wait_of DispatchHoldKind.accounts = RetryKind.accounts

unfoldable pub is_work : RunKind → Bool
is_work work = true
is_work _ = false

unfoldable pub is_todo : Option StateLabel → Bool
is_todo (some todo) = true
is_todo _ = false

module _ {F : Type 0} ⦃f : Float F⦄ where
  attempts_reason : AdmissionRequest F → String
  attempts_reason r =
      show r.ledger.failures
      <> " worker sessions have failed for this issue in a row and agent.max_attempts is "
      <> show r.max_attempts

  spend_reason : AdmissionRequest F → String
  spend_reason r =
      "this issue has cost $"
      <> f.fixed2 r.ledger.cost_usd
      <> " over "
      <> show r.ledger.runs
      <> " runs and agent.max_issue_cost_usd is $"
      <> f.fixed2 r.max_issue_cost_usd

  -- `if work and ledger.failures >= max_attempts`, and the rest of `admit`
  unfoldable pub admit_budget : AdmissionRequest F → Admission F
  unfolding attempts_reason spend_reason attempt is_work
  admit_budget r =
      if is_work r.kind && leb r.max_attempts r.ledger.failures
      then refused attempts (attempts_reason r) none
      else if f.lt f.zero_f r.max_issue_cost_usd && f.le r.max_issue_cost_usd r.ledger.cost_usd
      then refused spend (spend_reason r) none
      else admitted (attempt r.ledger) r.ledger

  admit_order : AdmissionRequest F → Issue → Option OrderHold → Admission F
  unfolding admit_budget order_reason is_todo is_work
  admit_order r issue none = admit_budget r
  admit_order r issue (some h) =
      if is_work r.kind && is_todo issue.state
      then refused order (order_reason h) (some RetryKind.order)
      else admit_budget r

  admit_issue : AdmissionRequest F → Option Issue → Admission F
  unfolding admit_order is_active
  admit_issue r none = admitted (attempt r.ledger) r.ledger
  admit_issue r (some issue) =
      if is_work r.kind && not (issue.dispatchable && is_active issue.state)
      then refused inactive "the issue is not in a state this worker claims" none
      else admit_order r issue r.order

  admit_worker : AdmissionRequest F → Option Hold → Admission F
  unfolding admit_issue wait_of
  admit_worker r (some h) = refused hold h.reason (some (wait_of h.kind))
  admit_worker r none =
      if not_pos r.slots
      then refused slots "no available orchestrator slots" (some RetryKind.slots)
      else if r.busy
      then refused busy "the issue is already running or waiting to retry" none
      else admit_issue r r.issue

  unfoldable pub admit : AdmissionRequest F → Admission F
  unfolding admit_worker
  admit r =
      if r.stopping
      then refused stopping "the worker is shutting down" none
      else admit_worker r r.hold
