-- ===== src/Orchestrator/Worker.antt =====
-- The state of `Orchestrator` in orchestrator/orchestrator.py that a claim, a retry or an exit touches,
-- and the methods on it that call nobody. A method reads the clock once.
pub mod Effects
pub mod Refusals
pub mod Approvals
pub mod Dispatch
pub mod Retries
pub mod Exits
pub mod Endings
pub mod Reconcile
pub mod Candidates
pub mod Tables
pub mod Reads
pub mod Moves
pub mod Invariant
pub mod Firing
pub mod Fired
pub mod Swept
pub mod Exited
pub mod Refreshed
pub mod Reached
pub mod Separate
pub mod Returns
pub mod Shutdown
use issuebot.Prelude.{
  ℕ, ◌+◌, ◌*◌, ◌-◌, min, String, Option, none, some, List, [], ◌∷◌, Bool, true, false, ◌||◌, length,
  leb, if◌then◌else◌,
}
use issuebot.Prelude.Int.{ℤ, pos}
use issuebot.Prelude.Float.{Float}
use issuebot.Prelude.Dict.{Dict, lookup, remove, set}
use issuebot.GitHub.Models.{Instant, StateLabel, Issue}
use issuebot.Orchestrator.Admission.Ledger.{Ledger, get, cleared, mark_escaped}
use issuebot.Orchestrator.Admission.Gate.{RetryKind, RunKind, OrderHold, Admission, admit}
use issuebot.Orchestrator.Runtime.{RunningEntry, RetryEntry, BlockedContext, Counters, ClaudeTotals}
use issuebot.Orchestrator.Approval.{Assessment}
use issuebot.Orchestrator.Actions.{EscapeOutcome, applied, skipped, failed}
use issuebot.Orchestrator.Holds.{Holds}
use issuebot.Orchestrator.Holds.Shown.{current_hold}

-- The settings that these methods read.
pub record Settings (F : Type 0) : Type 0 where
  pub max_concurrent_agents : ℕ
  pub max_attempts : ℕ
  pub max_issue_cost_usd : F
  pub max_retry_backoff_ms : ℕ
  pub stall_timeout_ms : ℕ
  pub interval_ms : ℕ

-- One reading of the monotonic clock, in milliseconds, and of the time.
pub record Clock : Type 0 where
  pub mono : ℕ
  pub now : Instant

-- The label that approves, whether authorship counts, and the issue as the poll saw it.
pub record ApprovalKey : Type 0 where
  pub label : String
  pub authorship : Bool
  pub updated_at : Instant
  pub title : String
  pub body : Option String
  pub author_association : Option String

pub record Worker (F : Type 0) : Type 0 where
  pub running : Dict RunningEntry
  pub retries : Dict RetryEntry
  -- the order-hold reason last logged for an issue
  pub held : Dict String
  pub ledger : Ledger F
  pub counters : Counters
  pub totals : ClaudeTotals F
  pub holds : Holds
  -- the last verdict on an issue and what it was about
  pub approval_verdicts : Dict (ApprovalKey × Assessment)
  pub own_labels_approve : Option Bool
  pub stopping : Bool

-- `key in d`
unfoldable pub has_key : {V : Type 0} → Dict V → String → Bool
has_key d key = elim (lookup d key) [ none ↦ false | some _ ↦ true ]

-- `Counters.bump`, for each of the keywords it is called with.
unfoldable pub bump_started : Counters → Counters
bump_started c = record c { runs_started = c.runs_started + 1 }

unfoldable pub bump_ended : Counters → Counters
bump_ended c = record c { runs_ended = c.runs_ended + 1 }

unfoldable pub bump_blocked : Counters → Counters
bump_blocked c = record c { blocked = c.blocked + 1 }

unfoldable pub bump_completed : Counters → Counters
bump_completed c = record c { issues_completed = c.issues_completed + 1 }

unfoldable pub bump_cancelled : Counters → Counters
bump_cancelled c = record c { issues_cancelled = c.issues_cancelled + 1 }

unfoldable pub earliest_due : Dict RetryEntry → Option ℕ
earliest_due [] = none
earliest_due ((id, entry) ∷ rest) = elim (earliest_due rest) [
  | none ↦ some entry.due_mono
  | some due ↦ some (min entry.due_mono due)
]

module _ {F : Type 0} ⦃f : Float F⦄ (settings : Settings F) where
  unfoldable pub slots : Worker F → ℕ
  slots w = settings.max_concurrent_agents - length w.running

  -- `_admit`
  unfoldable pub admit_issue_of :
      Worker F → String → String → Option Issue → RunKind → Option OrderHold → Admission F
  unfolding slots has_key
  admit_issue_of w identifier issue_id issue kind order = admit (record {
    issue = issue;
    ledger = get w.ledger identifier;
    hold = current_hold w.holds;
    slots = pos (slots w);
    busy = has_key w.running issue_id || has_key w.retries issue_id;
    stopping = w.stopping;
    max_attempts = settings.max_attempts;
    max_issue_cost_usd = settings.max_issue_cost_usd;
    kind = kind;
    order = order;
  })

-- What `_schedule` is given.
pub record Plan : Type 0 where
  pub attempt : ℕ
  pub kind : RetryKind
  pub delay_ms : ℕ
  pub error : Option String
  pub escape : Option BlockedContext

module _ {F : Type 0} where
  unfoldable pub schedule : Clock → Issue → Plan → Worker F → Worker F
  schedule clock issue plan w = record w {
    retries = set w.retries issue.id (record {
      issue_id = issue.id;
      identifier = issue.identifier;
      issue_number = issue.number;
      issue_url = issue.url;
      title = issue.title;
      attempt = plan.attempt;
      kind = plan.kind;
      due_mono = clock.mono + plan.delay_ms;
      due_at = clock.now + plan.delay_ms * 1000;
      error = plan.error;
      escape = plan.escape;
    });
  }

  unfoldable pub requeue : Clock → RetryEntry → ℕ → String → RetryKind → Worker F → Worker F
  requeue clock entry delay_ms error kind w = record w {
    retries = set w.retries entry.issue_id (record entry {
      kind = kind;
      due_mono = clock.mono + delay_ms;
      due_at = clock.now + delay_ms * 1000;
      error = some error;
    });
  }

module _ {F : Type 0} ⦃f : Float F⦄ where
  unfoldable pub record_escape : String → EscapeOutcome → Worker F → Worker F
  record_escape identifier failed w = w
  record_escape identifier _ w = record w {
    ledger = mark_escaped (cleared w.ledger identifier) identifier;
  }
