-- ===== src/Tests/Samples.antt =====
-- Data that the tests share.
use issuebot.Prelude.{ℕ, String, Option, none, some, List, [], ◌∷◌, true, false}
use issuebot.GitHub.Models.{
  StateLabel, todo, is_open, is_closed, Issue, SubIssue, LinkedPr, pr_open, mergeable,
}

abbrev pub sample_issue : ℕ → Option StateLabel → List String → Issue
sample_issue number state labels = record {
  id = "I_1";
  identifier = "octo/repo#7";
  number = number;
  title = "Add a flag";
  body = some "As described.";
  author = some "Ada";
  github_state = is_open;
  state = state;
  state_labels = labels;
  labels = labels;
  url = "https://github.com/octo/repo/issues/7";
  assignees = [];
  created_at = 5;
  updated_at = 9;
  closed_at = none;
  linked_pr = none;
  dispatchable = true;
  author_association = some "OWNER";
  parent = none;
  parent_elsewhere = false;
  body_html = none;
  sub_issue_count = 0;
}

abbrev pub queued_issue : Issue
queued_issue = sample_issue 7 (some todo) ("issuebot-todo" ∷ [])

abbrev pub plain_issue : Issue
plain_issue = sample_issue 8 none ("bug" ∷ [])

abbrev pub sample_pr : LinkedPr
sample_pr = record {
  number = 12;
  url = "https://github.com/octo/repo/pull/12";
  state = pr_open;
  merged_at = none;
  can_merge = mergeable;
}

abbrev pub sub_issue : ℕ → String → SubIssue
sub_issue number title = record { number = number; title = title; url = ""; state = is_open }

abbrev pub closed_sub_issue : ℕ → String → SubIssue
closed_sub_issue number title = record {
  number = number;
  title = title;
  url = "";
  state = is_closed;
}
