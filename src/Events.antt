-- ===== src/Events.antt =====
-- events/types.py: the domain events. The time `at`, which the clock fills in, is left out.
pub mod Bus
use issuebot.Prelude.{ℕ, String, Option, Bool}
use issuebot.GitHub.Models.{Instant}

pub data EventActor : Type 0 where
  by_issuebot by_agent by_human : EventActor

pub record StateChanged : Type 0 where
  pub issue_number : ℕ
  pub issue_identifier : String
  pub from_label : Option String
  pub to_label : Option String
  pub actor : EventActor
  pub pr_url : Option String
  pub note : Option String

pub record PrOpened : Type 0 where
  pub issue_number : ℕ
  pub issue_identifier : String
  pub pr_number : ℕ
  pub pr_url : String

pub data CompletionResolution : Type 0 where
  merged_pr no_change parent_review : CompletionResolution

pub record IssueCompleted : Type 0 where
  pub issue_number : ℕ
  pub issue_identifier : String
  pub pr_url : Option String
  pub resolution : CompletionResolution

pub record Blocked : Type 0 where
  pub issue_number : ℕ
  pub issue_identifier : String
  pub reason : String

pub record IssueCancelled : Type 0 where
  pub issue_number : ℕ
  pub issue_identifier : String
  pub reason : String

pub record ParentReviewState : Type 0 where
  pub issue_number : ℕ
  pub issue_identifier : String
  pub reviews : ℕ
  pub gap_rounds : ℕ
  pub handed_over : Option String
  pub finished : Bool

pub record AutoTriageState : Type 0 where
  pub auto : Bool
  pub watermark : Instant

-- The kinds of event that the modelled code publishes.
pub data Event : Type 0 where
  state_changed : StateChanged → Event
  pr_opened : PrOpened → Event
  blocked : Blocked → Event
  issue_completed : IssueCompleted → Event
  issue_cancelled : IssueCancelled → Event
  parent_review_state : ParentReviewState → Event
  auto_triage_state : AutoTriageState → Event
