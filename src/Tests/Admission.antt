-- ===== src/Tests/Admission.antt =====
-- Tests of the ledger and of the gate.
use issuebot.Prelude.{
  ℕ, ◌+◌, ◌≤◌, ◌<◌, String, none, some, List, [], ◌∷◌, false, ◌≡◌, ◌≢◌, refl, arith, str_eq, find,
}
use issuebot.Prelude.Float.{cents}
use issuebot.Prelude.Int.{pos}
use issuebot.Prelude.Dict.{lookup, remove}
use issuebot.Prelude.Sort.{sort}
use issuebot.Orchestrator.Admission.Ledger.{
  Ledger, init, get, dispatched, spent, failed, put, trim_entries, run, step, Call, dispatched_at,
  spent_on, failed_on,
}
use issuebot.Orchestrator.Admission.Ledger.Bounds.{IsValid, init-IsValid, step-IsValid, run-IsValid}
use issuebot.Orchestrator.Admission.Ledger.Chain.{
  count_failed, failure_of, KeepsChain, ends_chain, failures-run,
}
use issuebot.Orchestrator.Admission.Gate.{AdmissionRequest, admitted, admit, RunKind}
use issuebot.Orchestrator.Admission.Gate.Decision.{refusal, applies, precedence, admit-decision}
use issuebot.Orchestrator.Admission.Gate.Ceilings.{admitted-below_ceiling, attempts_ceiling}
use issuebot.Tests.Samples.{queued_issue}

abbrev this_one : String
this_one = "octo/repo#7"

abbrev start : Ledger ℕ
start = init [] 2

abbrev two_failures : List (Call ℕ)
two_failures =
    dispatched_at this_one 100
    ∷ spent_on this_one (pos 12) 150
    ∷ failed_on this_one
    ∷ dispatched_at "octo/repo#9" 200
    ∷ failed_on this_one
    ∷ []

abbrev later : Ledger ℕ
unfolding run
later = run ⦃f = cents⦄ start two_failures

abbrev work_request : ℕ → AdmissionRequest ℕ
unfolding get
work_request max_attempts = record {
  issue = some queued_issue;
  ledger = get ⦃f = cents⦄ later this_one;
  hold = none;
  slots = pos 1;
  busy = false;
  stopping = false;
  max_attempts = max_attempts;
  max_issue_cost_usd = 0;
  kind = RunKind.work;
  order = none;
}

start-IsValid : IsValid start
start-IsValid = init-IsValid [] 2 tt

step-IsValid_example : IsValid (step ⦃f = cents⦄ start (failed_on this_one))
step-IsValid_example = step-IsValid ⦃f = cents⦄ start (failed_on this_one) start-IsValid

run-IsValid_example : IsValid (run ⦃f = cents⦄ start two_failures)
run-IsValid_example = run-IsValid ⦃f = cents⦄ start two_failures start-IsValid

never_evicted : lookup (run ⦃f = cents⦄ start two_failures).evicted this_one ≡ none
unfolding run init lookup dispatched spent failed put trim_entries sort remove str_eq
never_evicted = refl

chain_kept : KeepsChain this_one two_failures
unfolding ends_chain
chain_kept = (refl, (refl, (refl, (refl, (refl, tt)))))

failures-run_example :
    count_failed this_one two_failures + (get ⦃f = cents⦄ start this_one).failures
    ≤ (get ⦃f = cents⦄ (run ⦃f = cents⦄ start two_failures) this_one).failures
failures-run_example = failures-run ⦃f = cents⦄ start two_failures this_one never_evicted chain_kept

two_counted : 2 ≤ count_failed this_one two_failures
unfolding count_failed failure_of str_eq
two_counted = omega arith

attempts_ceiling_example :
    admit ⦃f = cents⦄ (work_request 2) ≢ admitted 3 (get ⦃f = cents⦄ later this_one)
unfolding work_request later run
attempts_ceiling_example =
    attempts_ceiling ⦃f = cents⦄ start two_failures (work_request 2) queued_issue 3
      (get ⦃f = cents⦄ later this_one) never_evicted chain_kept refl refl refl two_counted

admit-decision_example :
    refusal ⦃f = cents⦄ (admit ⦃f = cents⦄ (work_request 2))
    ≡ find (λ k. applies ⦃f = cents⦄ k (work_request 2)) precedence
admit-decision_example = admit-decision ⦃f = cents⦄ (work_request 2)

admitted-below_ceiling_example : (2 < 3) × (3 ≤ 3)
unfolding work_request admit lookup later failed put trim_entries remove dispatched spent init sort
    str_eq
admitted-below_ceiling_example =
    admitted-below_ceiling ⦃f = cents⦄ (work_request 3) queued_issue 3
      (get ⦃f = cents⦄ later this_one) refl refl refl

below : (get ⦃f = cents⦄ start this_one).failures < 5
unfolding get init trim_entries sort lookup
below = omega arith
