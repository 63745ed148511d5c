-- ===== src/Orchestrator/Runtime.antt =====
-- orchestrator/state.py: runtime records and pure scheduling rules. The monotonic clock is read in
-- whole milliseconds.
pub mod Order
pub mod Snapshots
use issuebot.Prelude.{
  ℕ, ◌+◌, ◌-◌, ◌*◌, ◌^◌, min, String, Option, none, some, List, [], ◌∷◌, ◌++◌, map, Bool, true,
  false, not, ◌&&◌, ◌||◌, ltb, ◌==◌, str_eq, filter, in_strs, if◌then◌else◌,
}
use issuebot.Prelude.Float.{Float}
use issuebot.Prelude.Sort.{sort}
use issuebot.Prelude.Text.{lower}
use issuebot.Config.{GitHubLabels, as_tuple, claim_clears}
use issuebot.GitHub.Models.{
  Instant, StateLabel, todo, in_progress, review, rework, complete, LinkedPr, pr_open, conflicting,
  Issue, opened,
}
use issuebot.GitHub.State.{same_state}
use issuebot.Events.{Event, state_changed, pr_opened, by_agent, by_human}
use issuebot.Orchestrator.Admission.Gate.{RetryKind, RunKind}

abbrev pub continuation_delay_ms : ℕ
continuation_delay_ms = 1000

abbrev pub backoff_base_ms : ℕ
backoff_base_ms = 10000

abbrev pub terminal_sweep_every_ticks : ℕ
terminal_sweep_every_ticks = 10

-- `_RANK.get(issue.state, len(_RANK))`
unfoldable pub rank : Option StateLabel → ℕ
rank (some in_progress) = 0
rank (some rework) = 1
rank (some todo) = 2
rank _ = 3

unfoldable pub backoff_ms : ℕ → ℕ → ℕ
backoff_ms attempt max_backoff_ms =
    let exponent = attempt - 1 in min (backoff_base_ms * 2 ^ exponent) max_backoff_ms

-- The order of the tuples `(rank, created_at, number)`.
unfoldable pub before : Issue → Issue → Bool
unfolding rank
before a b =
    ltb (rank a.state) (rank b.state)
    || (rank a.state == rank b.state)
      && (ltb a.created_at b.created_at
          || (a.created_at == b.created_at) && not (ltb b.number a.number))

unfoldable pub sort_candidates : List Issue → List Issue
sort_candidates issues = sort before issues

unfoldable pub state_label_name : Issue → Option String
state_label_name issue = elim issue.state_labels [ [] ↦ none | name ∷ _ ↦ some name ]

unfoldable pub pr_url : Issue → Option String
pr_url issue = elim issue.linked_pr [ none ↦ none | some pr ↦ some pr.url ]

pr_conflicts : Option LinkedPr → Bool
pr_conflicts none = false
pr_conflicts (some pr) =
    elim pr.state [ pr_open ↦ true | _ ↦ false ]
    && elim pr.can_merge [ conflicting ↦ true | _ ↦ false ]

unfoldable pub conflict_candidate : Issue → Bool
unfolding pr_conflicts
conflict_candidate issue =
    same_state issue.state (some review) && (issue.dispatchable && pr_conflicts issue.linked_pr)

-- The names, in lower case, that a claim takes off.
unfoldable pub dropped_names : GitHubLabels → Bool → List String
unfolding as_tuple claim_clears
dropped_names labels clear_markers =
    map lower (as_tuple labels ++ (if clear_markers then claim_clears labels else []))

unfoldable pub claimed_snapshot : Issue → GitHubLabels → Bool → Issue
unfolding dropped_names
claimed_snapshot issue labels clear_markers =
    let target = lower labels.in_progress in
    let kept =
      filter (λ name. not (in_strs (lower name) (dropped_names labels clear_markers)))
        issue.labels in
    record issue {
      state = some in_progress;
      state_labels = target ∷ [];
      labels = kept ++ target ∷ [];
      dispatchable = opened issue.github_state;
    }

same_label : Option String → Option String → Bool
same_label none none = true
same_label (some a) (some b) = str_eq a b
same_label _ _ = false

label_moves : Issue → Issue → List Event
unfolding state_label_name pr_url same_label
label_moves previous current =
    let before_name = state_label_name previous in
    let after_name = state_label_name current in
    let agent_move =
      same_state previous.state (some in_progress) && same_state current.state (some review) in
    if same_label before_name after_name
    then []
    else state_changed (record {
      issue_number = current.number;
      issue_identifier = current.identifier;
      from_label = before_name;
      to_label = after_name;
      actor = if agent_move then by_agent else by_human;
      pr_url = pr_url current;
      note = none;
    })
      ∷ []

new_pr : Issue → Option LinkedPr → Option LinkedPr → List Event
new_pr current none (some pr) =
    pr_opened (record {
      issue_number = current.number;
      issue_identifier = current.identifier;
      pr_number = pr.number;
      pr_url = pr.url;
    })
    ∷ []
new_pr current _ _ = []

unfoldable pub observe_transition : Issue → Issue → List Event
unfolding label_moves new_pr
observe_transition previous current =
    label_moves previous current ++ new_pr current previous.linked_pr current.linked_pr

pub data StopCause : Type 0 where
  stalled state_moved issue_closed missing shutdown : StopCause

-- One worker task and everything the orchestrator knows about it. `cancel` is whether the event is
-- set, and `task` a handle of the runtime's.
pub record RunningEntry : Type 0 where
  pub issue : Issue
  pub attempt : ℕ
  pub rework_run : Bool
  pub resumed : Bool
  pub run_id : String
  pub started_mono : ℕ
  pub started_at : Instant
  pub cancel : Bool
  pub account : Option String
  pub task : Option ℕ
  pub session_id : Option String
  pub last_activity_mono : Option ℕ
  pub last_activity_at : Option Instant
  pub last_event : Option String
  pub turns : ℕ
  pub stop_cause : Option StopCause
  pub stop_detail : Option String
  pub review_seen_mono : Option ℕ
  pub terminal_issue : Option Issue
  pub kind : RunKind
  pub steps_seen : List ℕ

unfoldable pub stop : RunningEntry → StopCause → String → RunningEntry
stop entry cause detail = elim entry.stop_cause [
  | none ↦ record entry { stop_cause = some cause; stop_detail = some detail; cancel = true }
  | some _ ↦ record entry { cancel = true }
]

-- What the blocked escape writes.
pub record BlockedContext : Type 0 where
  pub reason : String
  pub run_id : String
  pub attempt : ℕ
  pub turns : ℕ
  pub log_dir : Option String

pub record RetryEntry : Type 0 where
  pub issue_id : String
  pub identifier : String
  pub issue_number : ℕ
  pub issue_url : String
  pub title : String
  pub attempt : ℕ
  pub kind : RetryKind
  pub due_mono : ℕ
  pub due_at : Instant
  pub error : Option String
  pub escape : Option BlockedContext

pub record RetryRow : Type 0 where
  pub issue_number : ℕ
  pub identifier : String
  pub title : String
  pub url : String
  pub attempt : ℕ
  pub kind : RetryKind
  pub due_at : Instant
  pub error : Option String

unfoldable pub retry_row : RetryEntry → RetryRow
retry_row entry = record {
  issue_number = entry.issue_number;
  identifier = entry.identifier;
  title = entry.title;
  url = entry.issue_url;
  attempt = entry.attempt;
  kind = entry.kind;
  due_at = entry.due_at;
  error = entry.error;
}

-- The figures of a `RunResult` (agent/session.py) that the totals add up.
pub record RunFigures (F : Type 0) : Type 0 where
  pub input_tokens : ℕ
  pub output_tokens : ℕ
  pub cost_usd : F
  pub duration_s : F

pub record ClaudeTotals (F : Type 0) : Type 0 where
  pub input_tokens : ℕ
  pub output_tokens : ℕ
  pub cost_usd : F
  pub seconds_running : F

module _ {F : Type 0} where
  unfoldable pub total_tokens : ClaudeTotals F → ℕ
  total_tokens t = t.input_tokens + t.output_tokens

module _ {F : Type 0} ⦃f : Float F⦄ where
  -- `ClaudeTotals.add`
  unfoldable pub add_result : ClaudeTotals F → RunFigures F → ClaudeTotals F
  add_result t result = record {
    input_tokens = t.input_tokens + result.input_tokens;
    output_tokens = t.output_tokens + result.output_tokens;
    cost_usd = f.round (f.add t.cost_usd result.cost_usd) 6;
    seconds_running = f.round (f.add t.seconds_running result.duration_s) 3;
  }

pub record Counters : Type 0 where
  pub runs_started : ℕ
  pub runs_ended : ℕ
  pub issues_completed : ℕ
  pub issues_cancelled : ℕ
  pub blocked : ℕ
