-- ===== src/Orchestrator/Holds/Shown.antt =====
-- `_current_hold` and the snapshot's hold (`_settle_dispatch_hold`) of orchestrator/orchestrator.py.
use issuebot.Prelude.{
  ℕ, String, Option, none, some, Bool, true, false, ◌&&◌, str_eq, ◌==◌, if◌then◌else◌,
}
use issuebot.GitHub.Models.{Instant}
use issuebot.Orchestrator.Admission.Gate.{
  DispatchHoldKind, preflight, auth, usage, github, accounts, Hold,
}
use issuebot.Orchestrator.Holds.{Holds, DispatchHold}

-- `first or second` of two texts
or_else : Option String → Option String → Option String
or_else none second = second
or_else (some text) second = if str_eq text "" then second else some text

is_truthy : Option String → Bool
is_truthy none = false
is_truthy (some text) = if str_eq text "" then false else true

unfoldable pub accounts_hold : Holds → Option String
unfolding or_else
accounts_hold h = or_else h.run_as_block h.accounts_block

plain_hold : DispatchHoldKind → String → Option String → Hold
plain_hold kind reason key = record {
  kind = kind;
  reason = reason;
  key = key;
  until = none;
  window = none;
}

github_hold : Holds → Option Hold
unfolding plain_hold
github_hold h = elim h.github_block [
  | none ↦ none
  | some reason ↦ some (plain_hold github reason (some "github"))
]

accounts_or : Holds → Option Hold
unfolding accounts_hold plain_hold github_hold is_truthy
accounts_or h = elim (accounts_hold h) [
  | none ↦ github_hold h
  | some reason ↦ some (
      plain_hold accounts reason
        (some (if is_truthy h.run_as_block then "accounts:run_as" else "accounts:record")))
]

usage_or : Holds → Option Hold
unfolding accounts_or
usage_or h = elim h.usage_reason [
  | none ↦ accounts_or h
  | some reason ↦ some (record {
    kind = usage;
    reason = reason;
    key = some "usage";
    until = h.usage_until;
    window = h.usage_window;
  })
]

auth_or : Holds → Option Hold
unfolding usage_or plain_hold
auth_or h = elim h.auth_reason [
  | none ↦ usage_or h
  | some reason ↦ some (plain_hold auth reason h.auth_key)
]

-- The one live reason not to claim anything.
unfoldable pub current_hold : Holds → Option Hold
unfolding auth_or plain_hold
current_hold h = elim h.preflight_block [
  | none ↦ auth_or h
  | some reason ↦ some (plain_hold preflight reason none)
]

unfoldable pub kind_code : DispatchHoldKind → ℕ
kind_code preflight = 0
kind_code auth = 1
kind_code usage = 2
kind_code github = 3
kind_code accounts = 4

-- `(kind, reason if key is None else key)`
unfoldable pub identity : Hold → DispatchHoldKind × String
identity hold = (hold.kind, elim hold.key [ none ↦ hold.reason | some key ↦ key ])

unfoldable pub same_identity : Option (DispatchHoldKind × String) → DispatchHoldKind × String → Bool
unfolding kind_code
same_identity none i = false
same_identity (some (kind, text)) i = kind_code kind == kind_code i.0 && str_eq text i.1

unfoldable pub shown_as : Hold → Instant → DispatchHold
shown_as hold since = record {
  kind = hold.kind;
  reason = hold.reason;
  since = since;
  until = hold.until;
  window = hold.window;
}

-- A hold that lasts keeps its `since`, and its kind.
unfoldable pub snapshot_of :
    Option DispatchHold
    → Option (DispatchHoldKind × String)
    → Hold
    → Instant
    → DispatchHold × Option (DispatchHoldKind × String)
unfolding identity same_identity shown_as
snapshot_of none last hold now = (shown_as hold now, some (identity hold))
snapshot_of (some shown) last hold now =
    if same_identity last (identity hold)
    then (record shown { reason = hold.reason; until = hold.until; window = hold.window }, last)
    else (shown_as hold now, some (identity hold))

unfoldable pub hold_snapshot : Holds → Hold → Instant → Holds
unfolding snapshot_of
hold_snapshot h hold now =
    let (shown, last) = snapshot_of h.dispatch_hold h.hold_identity hold now in
    record h { dispatch_hold = some shown; hold_identity = last }

unfoldable pub release_snapshot_hold : Holds → Holds
release_snapshot_hold h = record h { dispatch_hold = none; hold_identity = none }

-- One settling, for the hold that `_current_hold` has given.
unfoldable pub carry : Holds → Option Hold → Instant → Holds
unfolding hold_snapshot release_snapshot_hold
carry h none now = release_snapshot_hold h
carry h (some hold) now = hold_snapshot h hold now

unfoldable pub settle_dispatch_hold : Holds → Instant → Holds
unfolding current_hold carry
settle_dispatch_hold h now = carry h (current_hold h) now
