-- ===== src/Prelude/Float.antt =====
-- Python's `float`, as far as the program uses it: costs in dollars. The operations are a parameter,
-- so that nothing is assumed of rounding; a theorem that needs a law of IEEE arithmetic names it.
use Prim.Native.Nat.{ℕ, ◌+◌, ◌/◌, ◌%◌, max as nat_max}
use Prim.Native.String.{String}
use mathlib.Core.Bool.{Bool}
use issuebot.Prelude.Tests.{ltb, leb}
use issuebot.Prelude.Text.{show, two_digits, ◌<>◌}

pub record Float (F : Type 0) : Type 0 where
  pub zero_f : F
  pub add : F → F → F
  -- `max(x, y)`
  pub maximum : F → F → F
  -- `round(x, digits)`
  pub round : F → ℕ → F
  pub lt : F → F → Bool
  pub le : F → F → Bool
  -- `f"{x:.2f}"`
  pub fixed2 : F → String

-- Whole hundredths of a dollar, to run the definitions on.
abbrev pub cents : Float ℕ
cents = record {
  zero_f = 0;
  add = λ x y. x + y;
  maximum = λ x y. nat_max x y;
  round = λ x digits. x;
  lt = ltb;
  le = leb;
  fixed2 = λ x. show (x / 100) <> "." <> two_digits (x % 100);
}
