-- ===== src/Orchestrator/Holds.antt =====
-- The dispatch holds of orchestrator/orchestrator.py: the fields of `Orchestrator` that say why nothing
-- is claimed, and the methods that set them. What was last logged of a hold is left out. The answers
-- of the probes are arguments, and so is the time that a method reads.
pub mod Outage
pub mod Usage
pub mod Probes
pub mod Shown
pub mod Lasting
use issuebot.Prelude.{
  ℕ, ◌+◌, ◌*◌, ◌-◌, ◌/◌, ◌%◌, String, Option, none, some, List, [], ◌∷◌, Bool, true, false, ◌&&◌,
  ◌==◌, ltb, leb, str_eq, if◌then◌else◌,
}
use issuebot.Prelude.Text.{◌<>◌, rstrip, two_digits}
use issuebot.Prelude.Search.{str_length, str_take}
use issuebot.GitHub.Models.{Instant}
use issuebot.GitHub.Adapter.{ErrorCategory, GitHubError, error_text}
use issuebot.Orchestrator.Admission.Gate.{
  DispatchHoldKind, preflight, auth, usage, github, accounts, Hold,
}

abbrev pub max_unreadable_auth_probes : ℕ
max_unreadable_auth_probes = 10

abbrev pub max_fetch_failures : ℕ
max_fetch_failures = 3

abbrev pub max_hold_error_chars : ℕ
max_hold_error_chars = 300

-- What the snapshot says of a hold (orchestrator/state.py).
pub record DispatchHold : Type 0 where
  pub kind : DispatchHoldKind
  pub reason : String
  pub since : Instant
  pub until : Option Instant
  pub window : Option String

pub record Holds : Type 0 where
  pub preflight_block : Option String
  pub auth_block : Option String
  pub auth_reason : Option String
  pub auth_key : Option String
  pub unreadable_auth_probes : ℕ
  pub usage_reason : Option String
  pub usage_reset_at : Option Instant
  pub usage_until : Option Instant
  pub usage_window : Option String
  pub accounts_block : Option String
  pub run_as_block : Option String
  pub fetch_failures : ℕ
  pub github_block : Option String
  pub github_note : Option String
  pub dispatch_hold : Option DispatchHold
  pub hold_identity : Option (DispatchHoldKind × String)

-- As `Orchestrator.__init__` sets them.
abbrev pub no_holds : Holds
no_holds = record {
  preflight_block = none;
  auth_block = none;
  auth_reason = none;
  auth_key = none;
  unreadable_auth_probes = 0;
  usage_reason = none;
  usage_reset_at = none;
  usage_until = none;
  usage_window = none;
  accounts_block = none;
  run_as_block = none;
  fetch_failures = 0;
  github_block = none;
  github_note = none;
  dispatch_hold = none;
  hold_identity = none;
}

-- `text if len(text) <= limit else text[: limit - 1].rstrip() + "…"`
unfoldable pub clipped : String → ℕ → String
unfolding str_length str_take rstrip
clipped text limit =
    if leb (str_length text) limit then text else rstrip (str_take (limit - 1) text) <> "…"

is_rate_limited : ErrorCategory → Bool
is_rate_limited ErrorCategory.rate_limited = true
is_rate_limited _ = false

-- The note that joins a reason, unless it is missing or empty.
noted_reason : String → Option String → String
unfolding str_eq
noted_reason reason none = reason
noted_reason reason (some note) =
    if str_eq note "" then reason else reason <> " — githubstatus.com " <> note

unfoldable pub github_hold_reason : GitHubError → Option String → String
unfolding clipped is_rate_limited noted_reason error_text
github_hold_reason error status_note =
    let detail = clipped (error_text error) max_hold_error_chars in
    noted_reason
      (if is_rate_limited error.category
        then "GitHub is rate-limiting this worker's account: " <> detail
        else "GitHub is not answering this worker: " <> detail)
      status_note

-- `f"at {now:%H:%M}Z: {note}"`
unfoldable pub stamped : Instant → Option String → Option String
unfolding two_digits
stamped now none = none
stamped now (some note) = some (
    "at "
    <> two_digits (now / 3600000000 % 24)
    <> ":"
    <> two_digits (now / 60000000 % 60)
    <> "Z: "
    <> note)

-- The GitHub hold. `status` is what the status page says when the hold engages.
unfoldable pub note_for : Holds → Instant → Option String → Option String
unfolding stamped
note_for h now status = elim h.github_block [ none ↦ stamped now status | some _ ↦ h.github_note ]

unfoldable pub note_fetch_failure : Holds → GitHubError → Instant → Option String → Holds
unfolding github_hold_reason note_for
note_fetch_failure h error now status =
    if ltb (h.fetch_failures + 1) max_fetch_failures
    then record h { fetch_failures = h.fetch_failures + 1 }
    else record h {
      fetch_failures = h.fetch_failures + 1;
      github_note = note_for h now status;
      github_block = some (github_hold_reason error (note_for h now status));
    }

unfoldable pub forget_fetch_failures : Holds → Holds
forget_fetch_failures h = record h { fetch_failures = 0; github_block = none; github_note = none }

unfoldable pub note_fetch_success : Holds → Holds
unfolding forget_fetch_failures
note_fetch_success h = forget_fetch_failures h

unfoldable pub note_fetch_skipped : Holds → Holds
unfolding forget_fetch_failures
note_fetch_skipped h = forget_fetch_failures h

-- The authentication hold.
unfoldable pub hold_dispatch : Holds → String → Holds
hold_dispatch h error = record h {
  auth_block = some error;
  auth_reason = some ("claude authentication unavailable: " <> error);
  auth_key = none;
  unreadable_auth_probes = 0;
}

unfoldable pub release_hold : Holds → Holds
release_hold h = record h {
  auth_block = none;
  auth_reason = none;
  auth_key = none;
  unreadable_auth_probes = 0;
}

-- `ClaudeAuth` (agent/runner.py), less the credential.
pub data AuthVerdict : Type 0 where
  logged_in ambiguous logged_out unreadable : AuthVerdict

pub record ClaudeAuth : Type 0 where
  pub verdict : AuthVerdict
  pub detail : String

verdict_name : AuthVerdict → String
verdict_name logged_in = "ok"
verdict_name ambiguous = "ambiguous"
verdict_name logged_out = "logged_out"
verdict_name unreadable = "unreadable"

still_held : Holds → ClaudeAuth → ℕ → Bool × Holds
unfolding verdict_name
still_held h probe unread = (
  true,
  record h {
    unreadable_auth_probes = unread;
    auth_reason = some ("claude authentication unavailable: " <> probe.detail);
    auth_key = some (verdict_name probe.verdict);
  },
)

probed : Holds → ClaudeAuth → AuthVerdict → Bool × Holds
unfolding still_held release_hold
probed h probe logged_in = (false, release_hold h)
probed h probe ambiguous = (false, release_hold h)
probed h probe logged_out = still_held h probe 0
probed h probe unreadable =
    if leb max_unreadable_auth_probes (h.unreadable_auth_probes + 1)
    then (false, release_hold h)
    else still_held h probe (h.unreadable_auth_probes + 1)

-- Whether the hold stands after this tick's probe.
unfoldable pub refresh_auth_hold : Holds → ClaudeAuth → Bool × Holds
unfolding probed
refresh_auth_hold h probe = elim h.auth_block [
  | none ↦ (false, h)
  | some _ ↦ probed h probe probe.verdict
]
