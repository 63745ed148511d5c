-- ===== src/Tests/Filing.antt =====
-- Tests of filing a verdict, on a GitHub that is the lists of sub-issues of all issues.
use issuebot.Prelude.{
  ℕ, String, none, List, [], ◌∷◌, ◌++◌, true, false, ◌≡◌, refl, arith, inr, str_eq, ◌==◌,
  if◌then◌else◌,
}
use issuebot.Prelude.Float.{cents}
use issuebot.Config.{default_labels}
use issuebot.GitHub.Models.{SubIssue}
use issuebot.GitHub.Adapter.{ErrorCategory, GitHubError, ok, err, Exec, GitHubAdapter, HasSubIssues}
use issuebot.Agent.Verdict.{SubIssueDraft, operator_step, TriageVerdict, split}
use issuebot.Events.Bus.{EventBus}
use issuebot.Orchestrator.Triage.{RunNote}
use issuebot.Orchestrator.Filing.Growth.{Grows}
use issuebot.Orchestrator.Filing.Loop.{Grown}
use issuebot.Orchestrator.Filing.Apply.{apply_verdict, after_runs}
use issuebot.Orchestrator.Filing.Quiet.{children_of}
use issuebot.Orchestrator.Filing.Retry.{drafts_of, apply_verdict-Grown, apply_verdict-retried}
use issuebot.Tests.Samples.{queued_issue, sub_issue}

abbrev pub Lists : Type 0
Lists = ℕ → List SubIssue

abbrev pub World : Type 0
World = (EventBus ℕ × ℕ) × Lists

abbrev pub listed : ℕ → Lists → List SubIssue
listed parent lists = lists parent

abbrev pub lost : GitHubError
lost = record {
  category = ErrorCategory.transport;
  message = "connection lost";
  page_ceiling = false;
}

-- A creation always works, but its answer is lost for one title.
abbrev pub create : ℕ → String → String → Exec World SubIssue
create parent title text (bus, lists) =
    let child = sub_issue 30 title in
    (
      if str_eq title "Lost" then err lost else ok child,
      (bus, λ p. if p == parent then lists p ++ child ∷ [] else lists p),
    )

-- Comments never arrive.
abbrev pub lists_only : GitHubAdapter World
lists_only = record {
  labels = default_labels;
  sub_issues = λ parent w. (ok (w.1 parent), w);
  create_sub_issue = create;
  edit_labels = λ number add remove w. (ok tt, w);
  close_as_completed = λ number w. (ok tt, w);
  comment = λ number text w. (err lost, w);
  fetch_issues_by_ids = λ ids w. (ok [], w);
  set_state = λ number state clear_markers w. (ok tt, w);
  clear_state = λ number w. (ok tt, w);
  find_workpad_comment = λ number w. (ok none, w);
  update_comment = λ comment_id text w. (ok tt, w);
  count_own_label_additions = λ number label w. (ok 0, w);
  approval_evidence = λ number w. (ok (record { label_events = []; edits = [] }), w);
  own_login = λ w. (ok "issuebot", w);
  repo_info = λ w. (
    ok (record {
      full_name = "octo/repo";
      default_branch = "main";
      private = false;
      admin = false;
    }),
    w,
  );
}

pub lists_only-HasSubIssues : HasSubIssues lists_only (children_of listed)
lists_only-HasSubIssues = record {
  reads = λ parent w found h. ground arith;
  read_only = λ parent p w. refl;
  creates = λ parent title text w child h. ground arith;
  may_create = λ parent title text w e h. inr (sub_issue 30 title, refl, ground arith);
  edits_labels = λ number p add remove w. refl;
  closes = λ number p w. refl;
  comments = λ number p text w. refl;
}

abbrev pub draft : String → SubIssueDraft
draft title = record { title = title; body = "Do it."; kind = operator_step }

abbrev verdict : TriageVerdict
verdict = record {
  verdict = split;
  summary = "Three steps.";
  fits_caps = "no";
  lands_fast = "no";
  needs_human = "no";
  ignored_requests = "";
  sub_issues = draft "One" ∷ draft "Lost" ∷ draft "Two" ∷ [];
}

abbrev pub start : World
start = ((record { sinks = []; failures = [] }, 0), λ p. [])

abbrev pub note : ℕ → RunNote ℕ
note attempt = record { run_id = "r1"; attempt = attempt; turns = 4; cost_usd = 25; now = 0 }

unchanged : World → World
unchanged w = w

silent_swap : (w : World) → children_of listed 7 (unchanged w) ≡ children_of listed 7 w
unfolding unchanged
silent_swap w = refl

apply_verdict-Grown_example :
    Grown
      (children_of listed)
      7
      (drafts_of verdict)
      []
      (apply_verdict lists_only queued_issue verdict ⦃f = cents⦄ (note 1) unchanged false start).0
      (apply_verdict lists_only queued_issue verdict ⦃f = cents⦄ (note 1) unchanged false start).1
apply_verdict-Grown_example =
    apply_verdict-Grown lists_only listed lists_only-HasSubIssues queued_issue verdict ⦃f = cents⦄
      unchanged silent_swap (note 1) false start

apply_verdict-retried_example : Grows (drafts_of verdict) [] (
    (after_runs lists_only queued_issue verdict ⦃f = cents⦄ unchanged
        ((note 1, false) ∷ (note 2, true) ∷ [])
        start).1
      7)
apply_verdict-retried_example =
    apply_verdict-retried lists_only listed lists_only-HasSubIssues queued_issue verdict ⦃f = cents⦄
      unchanged silent_swap ((note 1, false) ∷ (note 2, true) ∷ []) start
