-- ===== src/Prelude/Int.antt =====
-- Signed integers, for the few values that the source may see below 0.
use issuebot.Prelude.Tests.{leb}
use Prim.Native.Nat.{ℕ}
use mathlib.Core.Bool.{Bool, true}

-- `negsuc n` is -(n + 1).
pub data ℤ : Type 0 where
  pos : ℕ → ℤ
  negsuc : ℕ → ℤ

-- `max(i, 0)`
abbrev pub max_zero : ℤ → ℕ
max_zero (pos n) = n
max_zero (negsuc n) = 0

-- `i <= 0`
abbrev pub not_pos : ℤ → Bool
not_pos (pos n) = leb n 0
not_pos (negsuc n) = true
