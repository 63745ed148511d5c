-- ===== src/Tests/Holds.antt =====
-- Tests of the reasons not to claim.
use issuebot.Prelude.{ℕ, String, none, some, List, [], ◌∷◌, false, ◌≡◌, ◌≢◌, refl, arith, leb}
use issuebot.GitHub.Adapter.{ErrorCategory, GitHubError}
use issuebot.Orchestrator.Admission.Gate.{Hold, DispatchHoldKind}
use issuebot.Orchestrator.Holds.{
  Holds, no_holds, ClaudeAuth, AuthVerdict, hold_dispatch, max_fetch_failures,
}
use issuebot.Orchestrator.Holds.Outage.{
  Poll, poll_failed, poll_answered, note_polls, trailing, is_held, note_polls-trailing,
}
use issuebot.Orchestrator.Holds.Probes.{IsLifted, run_probes, run_probes-lifts}
use issuebot.Orchestrator.Holds.Usage.{Refusal, hold_refusals, latest, due_at}
use issuebot.Orchestrator.Holds.Shown.{current_hold, identity, same_identity, settle_dispatch_hold}
use issuebot.Orchestrator.Holds.Lasting.{
  shown_claim, gate_claim, IsShown, carry_all, LastsSince, settle_dispatch_hold-IsShown,
  carry_all-lasting,
}

abbrev lost : GitHubError
lost = record {
  category = ErrorCategory.transport;
  message = "connection lost";
  page_ceiling = false;
}

abbrev outage : List Poll
outage =
    poll_answered
    ∷ poll_failed lost 60 none
    ∷ poll_failed lost 120 none
    ∷ poll_failed lost 180 none
    ∷ []

note_polls-trailing_example :
    ((note_polls no_holds outage).fetch_failures ≡ trailing 0 outage)
    × (is_held (note_polls no_holds outage).github_block
        ≡ leb max_fetch_failures (trailing 0 outage))
note_polls-trailing_example = note_polls-trailing outage

abbrev garbled : ClaudeAuth
garbled = record { verdict = AuthVerdict.unreadable; detail = "no answer" }

abbrev ten_garbled : List ClaudeAuth
ten_garbled =
    garbled ∷ garbled ∷ garbled ∷ garbled ∷ garbled ∷ garbled ∷ garbled ∷ garbled ∷ garbled
    ∷ garbled ∷ []

garbled-answers : garbled.verdict ≢ AuthVerdict.logged_out
garbled-answers h = ground (arith, h)

abbrev unauthenticated : Holds
unauthenticated = hold_dispatch no_holds "401"

blocked_at_first : unauthenticated.auth_block ≢ none
unfolding hold_dispatch
blocked_at_first h = cc

run_probes-lifts_example : IsLifted (run_probes unauthenticated ten_garbled)
run_probes-lifts_example =
    let n = garbled-answers in
    run_probes-lifts unauthenticated ten_garbled
      (n, (n, (n, (n, (n, (n, (n, (n, (n, (n, tt)))))))))) (omega arith) blocked_at_first

abbrev first_refusal : Refusal
first_refusal = record {
  now = 100;
  error = "limit";
  reset_at = some 900000000;
  window = some "five_hour";
}

abbrev second_refusal : Refusal
second_refusal = record { now = 200; error = "limit"; reset_at = none; window = none }

abbrev refused_twice : Holds
refused_twice = hold_refusals 30000 no_holds (first_refusal ∷ second_refusal ∷ [])

abbrev reopens : ℕ
reopens = latest 30000 (due_at first_refusal.reset_at first_refusal.now 30000) (second_refusal ∷ [])

settle_dispatch_hold-IsShown_example :
    IsShown (settle_dispatch_hold unauthenticated 60)
    × (shown_claim (settle_dispatch_hold unauthenticated 60).dispatch_hold
        ≡ gate_claim (current_hold unauthenticated))
unfolding hold_dispatch
settle_dispatch_hold-IsShown_example = settle_dispatch_hold-IsShown unauthenticated 60 tt

abbrev auth_hold : String → Hold
auth_hold reason = record {
  kind = DispatchHoldKind.auth;
  reason = reason;
  key = some "unreadable";
  until = none;
  window = none;
}

new_hold : same_identity no_holds.hold_identity (identity (auth_hold "no answer")) ≡ false
unfolding same_identity identity
new_hold = refl

same_hold : identity (auth_hold "garbled") ≡ identity (auth_hold "no answer")
unfolding identity
same_hold = refl

carry_all-lasting_example :
    LastsSince 60
      (auth_hold "no answer")
      (carry_all no_holds ((auth_hold "no answer", 60) ∷ (auth_hold "garbled", 120) ∷ []))
carry_all-lasting_example =
    carry_all-lasting no_holds (auth_hold "no answer") 60 ((auth_hold "garbled", 120) ∷ []) new_hold
      (same_hold, tt)
