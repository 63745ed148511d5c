-- ===== src/Orchestrator/Holds/Usage.antt =====
-- The usage hold of orchestrator/orchestrator.py, which lifts itself at the reset that was reported.
-- Intervals are in milliseconds, as in the settings.
use issuebot.Prelude.{
  ℕ, ◌+◌, ◌*◌, ◌-◌, ◌/◌, max, String, Option, none, some, List, [], ◌∷◌, Bool, true, ◌≡◌, ◌≢◌, ltb,
  if◌then◌else◌, false,
}
use issuebot.Prelude.Text.{◌<>◌}
use issuebot.GitHub.Models.{Instant}
use issuebot.Orchestrator.Holds.{Holds}

-- `old is None or new > old`
unfoldable pub is_later : Instant → Option Instant → Bool
is_later new none = true
is_later new (some old) = ltb old new

-- `reset_at or fallback`, where the fallback is one poll interval from now.
unfoldable pub due_at : Option Instant → Instant → ℕ → Instant
due_at none now interval_ms = now + interval_ms * 1000
due_at (some at) now interval_ms = at

moved_until : Holds → Option Instant → Option String → Holds
unfolding is_later
moved_until h none window = h
moved_until h (some at) window =
    if is_later at h.usage_until
    then record h { usage_until = some at; usage_window = window }
    else h

unfoldable pub hold_usage : Holds → Instant → ℕ → String → Option Instant → Option String → Holds
unfolding is_later due_at moved_until
hold_usage h now interval_ms error reset_at window =
    let due = due_at reset_at now interval_ms in
    let moved = moved_until h reset_at window in
    record moved {
      usage_reset_at = if is_later due h.usage_reset_at then some due else h.usage_reset_at;
      usage_reason = some ("claude usage limit reached: " <> error);
    }

unfoldable pub release_usage_hold : Holds → Holds
release_usage_hold h = record h {
  usage_reason = none;
  usage_reset_at = none;
  usage_until = none;
  usage_window = none;
}

unfoldable pub settle_usage_hold : Holds → Instant → Holds
unfolding release_usage_hold
settle_usage_hold h now = elim h.usage_reset_at [
  | none ↦ h
  | some at ↦ if ltb now at then h else release_usage_hold h
]

-- How long until the refused window reopens, in milliseconds, floored at one poll interval.
unfoldable pub usage_delay_ms : Holds → Instant → ℕ → ℕ
usage_delay_ms h now floor_ms = elim h.usage_reset_at [
  | none ↦ floor_ms
  | some at ↦ max ((at - now) / 1000) floor_ms
]

-- A refused turn: its time, its error, and the reset and the window that came with it.
pub record Refusal : Type 0 where
  pub now : Instant
  pub error : String
  pub reset_at : Option Instant
  pub window : Option String

-- While it is early the hold stands as it is; then nothing of it is left, and the rest is as it was.
abbrev pub Settled : Bool → Holds → Holds → Type 0
Settled true held h = h ≡ held
Settled false held h =
    (h.usage_reason ≡ none)
    × (h.usage_reset_at ≡ none)
    × (h.usage_until ≡ none)
    × (h.usage_window ≡ none)
    × (h.auth_reason ≡ held.auth_reason)
    × (h.preflight_block ≡ held.preflight_block)
    × (h.github_block ≡ held.github_block)

module _ (interval_ms : ℕ) where
  unfoldable pub hold_refusals : Holds → List Refusal → Holds
  unfolding hold_usage
  hold_refusals h [] = h
  hold_refusals h (r ∷ rs) =
      hold_refusals (hold_usage h r.now interval_ms r.error r.reset_at r.window) rs

  -- The latest of the moments that the refusals wait for.
  unfoldable pub latest : Instant → List Refusal → Instant
  unfolding due_at
  latest at [] = at
  latest at (r ∷ rs) = latest (max at (due_at r.reset_at r.now interval_ms)) rs

  IsUntil : Instant → Holds → Type 0
  IsUntil at h = (h.usage_reset_at ≡ some at) × (h.usage_reason ≢ none)
