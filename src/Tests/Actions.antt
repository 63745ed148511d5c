-- ===== src/Tests/Actions.antt =====
-- Tests of the operator's actions, on the board of one issue.
use issuebot.Prelude.{◌≤◌, max, none, some, [], ◌∷◌, false, refl}
use issuebot.GitHub.Models.{review, is_closed, Issue}
use issuebot.GitHub.Adapter.{◌>>=◌}
use issuebot.Orchestrator.Runtime.{BlockedContext}
use issuebot.Orchestrator.Actions.{BudgetLimit, applied, skipped}
use issuebot.Orchestrator.Actions.Escapes.{blocked_try, blocked_escape, budget_try, budget_escape}
use issuebot.Orchestrator.Actions.Conflict.{conflict_rework}
use issuebot.Orchestrator.Actions.Announced.{
  BlockedEnds, BudgetEnds, blocked_escape-ends, budget_escape-ends,
}
use issuebot.Orchestrator.Actions.Final.{Obeys}
use issuebot.Orchestrator.Actions.Applied.{IsIn, escapes_apply}
use issuebot.Orchestrator.Actions.Finished.{Finished}
use issuebot.Orchestrator.Actions.Bounces.{conflict_rework-bounded}
use issuebot.Tests.Samples.{sample_issue, sample_pr}
use issuebot.Tests.Board.{
  board, here, working_issue, state_of, additions_of, board-MovesStates, board-CountsBounces,
}

abbrev context : BlockedContext
context = record { reason = "no token"; run_id = "r1"; attempt = 2; turns = 3; log_dir = none }

blocked_escape-ends_example :
    BlockedEnds board state_of board-MovesStates context 60
      ((board.fetch_issues_by_ids ("I_1" ∷ []) >>= blocked_try board context 60) here).0
      here
      (blocked_escape board context 60 "I_1" here).0
      (blocked_escape board context 60 "I_1" here).1
blocked_escape-ends_example =
    blocked_escape-ends board state_of board-MovesStates context 60 "I_1" here

budget_escape-ends_example :
    BudgetEnds board state_of board-MovesStates "three runs failed" false
      ((board.fetch_issues_by_ids ("I_1" ∷ [])
          >>= budget_try board BudgetLimit.attempts "three runs failed" 60 false)
        here).0
      here
      (budget_escape board BudgetLimit.attempts "three runs failed" 60 false "I_1" here).0
      (budget_escape board BudgetLimit.attempts "three runs failed" 60 false "I_1" here).1
budget_escape-ends_example =
    budget_escape-ends board state_of board-MovesStates BudgetLimit.attempts "three runs failed" 60
      false "I_1" here

board-Obeys : Obeys board 7
board-Obeys = record {
  finds = λ w. tt;
  comments = λ text w. tt;
  updates = λ comment_id text w. tt;
  moves = λ w. refl;
}

escapes_apply_example :
    let (r, v) = blocked_escape board context 60 "I_1" here in
    let (s, u) = budget_escape board BudgetLimit.attempts "three runs failed" 60 false "I_1" here in
    IsIn board state_of board-MovesStates working_issue board-Obeys applied r v
    × IsIn board state_of board-MovesStates working_issue board-Obeys skipped s u
escapes_apply_example =
    escapes_apply board state_of board-MovesStates working_issue board-Obeys BudgetLimit.attempts
      "three runs failed" 60 false context "I_1" [] here refl refl refl

abbrev merged_issue : Issue
merged_issue = record (sample_issue 7 (some review) ("issuebot-review" ∷ [])) {
  github_state = is_closed;
  linked_pr = some sample_pr;
}

abbrev conflicting : Issue
conflicting = record (sample_issue 7 (some review) ("issuebot-review" ∷ [])) {
  linked_pr = some sample_pr;
}

conflict_rework-bounded_example :
    additions_of 7 (conflict_rework board conflicting 3 60 here).1.1 ≤ max 3 (additions_of 7 here.1)
conflict_rework-bounded_example =
    conflict_rework-bounded board additions_of board-CountsBounces conflicting 3 60 here
