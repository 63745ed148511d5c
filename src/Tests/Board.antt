-- ===== src/Tests/Board.antt =====
-- A GitHub that is the state of each issue and how often issuebot has labelled it for rework.
use issuebot.Prelude.{ℕ, suc, Option, none, some, [], ◌∷◌, false, refl, arith, ◌==◌, if◌then◌else◌}
use issuebot.Config.{default_labels}
use issuebot.GitHub.Models.{StateLabel, in_progress, rework, Issue}
use issuebot.GitHub.State.{same_state}
use issuebot.GitHub.Adapter.{ErrorCategory, ok, err, GitHubAdapter}
use issuebot.Orchestrator.Actions.{World}
use issuebot.Orchestrator.Actions.Effects.{Calls, MovesStates}
use issuebot.Orchestrator.Actions.Bounces.{CountsBounces}
use issuebot.Orchestrator.Actions.Finish.{Workspaces}
use issuebot.Orchestrator.Actions.Finished.{LeavesBoard}
use issuebot.Tests.Samples.{sample_issue}

pub record Board : Type 0 where
  pub states : ℕ → Option StateLabel
  pub additions : ℕ → ℕ

abbrev pub Here : Type 0
Here = World ℕ Board

abbrev pub working_issue : Issue
working_issue = sample_issue 7 (some in_progress) ("issuebot-in-progress" ∷ [])

abbrev put : ℕ → Option StateLabel → Here → Here
put number state (bus, b) = (
  bus,
  record {
    states = λ p. if p == number then state else b.states p;
    additions = λ p.
        if p == number
        then (if same_state state (some rework) then suc (b.additions p) else b.additions p)
        else b.additions p;
  },
)

-- There is one issue, with no comment on it.
abbrev pub board : GitHubAdapter Here
board = record {
  labels = default_labels;
  sub_issues = λ parent w. (ok [], w);
  create_sub_issue = λ parent title text w.
      (err (record { category = ErrorCategory.transport; message = ""; page_ceiling = false }), w);
  edit_labels = λ number add remove w. (ok tt, w);
  close_as_completed = λ number w. (ok tt, w);
  comment = λ number text w. (ok tt, w);
  fetch_issues_by_ids = λ ids w. (ok (working_issue ∷ []), w);
  set_state = λ number state clear_markers w. (ok tt, put number (some state) w);
  clear_state = λ number w. (ok tt, put number none w);
  find_workpad_comment = λ number w. (ok none, w);
  update_comment = λ comment_id text w. (ok tt, w);
  count_own_label_additions = λ number label w. (ok (w.1.additions number), w);
  approval_evidence = λ number w. (
    ok (record {
      label_events = record { label = "issuebot/todo"; actor = some "Ada"; at = 6 } ∷ [];
      edits = [];
    }),
    w,
  );
  own_login = λ w. (ok "issuebot", w);
  repo_info = λ w. (
    ok (record {
      full_name = "octo/repo";
      default_branch = "main";
      private = false;
      admin = false;
    }),
    w,
  );
}

abbrev pub state_of : ℕ → Board → Option StateLabel
state_of number b = b.states number

abbrev pub additions_of : ℕ → Board → ℕ
additions_of number b = b.additions number

pub board-Calls : {A : Type 0} (view : Here → A) → Calls view board
board-Calls view = record {
  fetches = λ ids w. refl;
  finds = λ number w. refl;
  counts = λ number label w. refl;
  comments = λ number text w. refl;
  updates = λ comment_id text w. refl;
}

pub board-MovesStates : MovesStates board state_of
board-MovesStates = record {
  bus_calls = board-Calls (λ w. w.0);
  role_calls = λ p. board-Calls (λ w. w.1.states p);
  sets_silently = λ number state markers w. refl;
  clears_silently = λ number w. refl;
  sets = λ number state markers w h. ground arith;
  clears = λ number w h. ground arith;
}

pub board-CountsBounces : CountsBounces board additions_of
board-CountsBounces = record {
  calls = λ number. board-Calls (λ w. w.1.additions number);
  counted = λ number k w h. ground (arith, h);
  adds = λ number state markers w. ground arith;
}

-- No workspace is there.
abbrev pub no_workspaces : Workspaces Here
no_workspaces = record {
  mark_finished = λ identifier w. w;
  remove = λ identifier w. (some false, w);
}

pub no_workspaces-LeavesBoard :
    (issue : Issue) → LeavesBoard board state_of board-MovesStates issue no_workspaces
no_workspaces-LeavesBoard issue = record {
  marks = λ identifier w. refl;
  removes = λ identifier w. refl;
  removes_role = λ identifier w. refl;
}

abbrev pub here : Here
here = (
  (record { sinks = []; failures = [] }, 0),
  record { states = λ p. some in_progress; additions = λ p. 1 },
)
