-- ===== src/GitHub/Models.antt =====
-- github/models.py: normalised GitHub records. A `datetime` is an `Instant`.
use issuebot.Prelude.{ℕ, String, Option, List, Bool, true, false, ◌==◌}

-- An aware `datetime`: the microseconds since 0001-01-01 00:00 UTC.
abbrev pub Instant : Type 0
Instant = ℕ

-- The five roles of the label state machine.
pub data StateLabel : Type 0 where
  todo in_progress review rework complete : StateLabel

role_code : StateLabel → ℕ
role_code todo = 0
role_code in_progress = 1
role_code review = 2
role_code rework = 3
role_code complete = 4

-- `a is b` of two roles
unfoldable pub same_role : StateLabel → StateLabel → Bool
unfolding role_code
same_role a b = role_code a == role_code b

pub data GitHubState : Type 0 where
  is_open is_closed : GitHubState

pub data PrState : Type 0 where
  pr_open pr_closed pr_merged : PrState

pub data Mergeable : Type 0 where
  mergeable conflicting unknown : Mergeable

pub record LinkedPr : Type 0 where
  pub number : ℕ
  pub url : String
  pub state : PrState
  pub merged_at : Option Instant
  pub can_merge : Mergeable

pub record Issue : Type 0 where
  pub id : String
  pub identifier : String
  pub number : ℕ
  pub title : String
  pub body : Option String
  pub author : Option String
  pub github_state : GitHubState
  pub state : Option StateLabel
  pub state_labels : List String
  pub labels : List String
  pub url : String
  pub assignees : List String
  pub created_at : Instant
  pub updated_at : Instant
  pub closed_at : Option Instant
  pub linked_pr : Option LinkedPr
  pub dispatchable : Bool
  pub author_association : Option String
  pub parent : Option ℕ
  pub parent_elsewhere : Bool
  pub body_html : Option String
  pub sub_issue_count : ℕ

-- A child of an issue, as GitHub links it.
pub record SubIssue : Type 0 where
  pub number : ℕ
  pub title : String
  pub url : String
  pub state : GitHubState

pub record ParentSteps : Type 0 where
  pub number : ℕ
  pub labels : List String
  pub sub_issues : List SubIssue
  pub id : String
  pub state : GitHubState

-- One label addition as GitHub's timeline records it.
pub record LabelApplied : Type 0 where
  pub label : String
  pub actor : Option String
  pub at : Instant

pub data Edited : Type 0 where
  body title : Edited

pub record TextEdit : Type 0 where
  pub what : Edited
  pub editor : Option String
  pub at : Instant

pub record ApprovalEvidence : Type 0 where
  pub label_events : List LabelApplied
  pub edits : List TextEdit

-- A comment that issuebot wrote.
pub record Comment : Type 0 where
  pub id : ℕ
  pub body : String
  pub url : String
  pub author : String
  pub created_at : Instant
  pub updated_at : Instant

pub record RepoInfo : Type 0 where
  pub full_name : String
  pub default_branch : String
  pub private : Bool
  pub admin : Bool

abbrev pub workpad_marker : String
workpad_marker = "## Issuebot Workpad"

unfoldable pub opened : GitHubState → Bool
opened is_open = true
opened is_closed = false
