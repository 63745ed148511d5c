-- ===== src/Prelude/Text.antt =====
-- The methods of `str` that the source uses, and the numbers and dates that its f-strings print.
-- `lower` and `casefold` change the letters A to Z and no other character, which is what Python does
-- to ASCII text; `strip` takes off every character that Python counts as white space.
use Prim.Native.Nat.{ℕ, zero, suc, ◌-◌, ◌/◌, ◌%◌, ◌<◌}
use Prim.Native.Char.{Char, code}
use Prim.Native.String
use Prim.Native.String.{String}
use mathlib.Core.Path.{◌≡◌, refl, ap, ap₂}
use mathlib.Core.Bool.{Bool, true, false, ◌&&◌, ◌||◌}
use mathlib.Core.List.{List, [], ◌∷◌}
use native.Mathlib.Omega.{arith}
use issuebot.Prelude.Tests.{ltb, leb, ◌==◌, str_eq, if◌then◌else◌, Bool-cases}
use issuebot.Prelude.Lists.{all, length}
use mathlib.Core.Logic.{inl, inr}

infixr 65 ◌<>◌
abbrev pub ◌<>◌ : String → String → String
s <> t = String.◌++◌ s t

nth : List Char → ℕ → Char → Char
nth [] i d = d
nth (c ∷ cs) zero d = c
nth (c ∷ cs) (suc i) d = nth cs i d

abbrev lower_letters : List Char
lower_letters =
    "a" ∷ "b" ∷ "c" ∷ "d" ∷ "e" ∷ "f" ∷ "g" ∷ "h" ∷ "i" ∷ "j" ∷ "k" ∷ "l" ∷ "m" ∷ "n" ∷ "o" ∷ "p"
    ∷ "q" ∷ "r" ∷ "s" ∷ "t" ∷ "u" ∷ "v" ∷ "w" ∷ "x" ∷ "y" ∷ "z" ∷ []

unfoldable pub lower_char : Char → Char
unfolding nth
lower_char c = if leb 65 (code c) && leb (code c) 90 then nth lower_letters (code c - 65) c else c

-- `s.lower()`, `s.casefold()`
unfoldable pub lower : String → String
unfolding lower_char
lower String.[] = String.[]
lower (String.◌∷◌ c s) = String.◌∷◌ (lower_char c) (lower s)

-- A character above `Z` is its own lower case.
abbrev IsLow : Char → Type 0
IsLow c = ltb 90 (code c) ≡ true

nth-IsLow :
    (cs : List Char) (i : ℕ) (d : Char)
    → all (λ c. ltb 90 (code c)) cs ≡ true
    → i < length cs
    → IsLow (nth cs i d)
unfolding nth all
nth-IsLow [] i d h k = absurd (omega arith)
nth-IsLow (c ∷ cs) zero d h k = ground arith
nth-IsLow (c ∷ cs) (suc i) d h k = nth-IsLow cs i d (ground arith) (omega arith)

lower_char-low : (c : Char) → IsLow c → lower_char c ≡ c
unfolding lower_char
lower_char-low c h = ground arith

letter-IsLow : (c : Char) → (leb 65 (code c) && leb (code c) 90) ≡ true → IsLow (lower_char c)
unfolding lower_char all
letter-IsLow c h = rw h (nth-IsLow lower_letters (code c - 65) c refl (ground arith))

other_char : (c : Char) → (leb 65 (code c) && leb (code c) 90) ≡ false → lower_char c ≡ c
unfolding lower_char
other_char c h = rw h

lower_char-lower_char : (c : Char) → lower_char (lower_char c) ≡ lower_char c
lower_char-lower_char c = elim (Bool-cases (leb 65 (code c) && leb (code c) 90)) [
  | inl e ↦ lower_char-low (lower_char c) (letter-IsLow c e)
  | inr e ↦ ap lower_char (other_char c e)
]

-- Lowering twice is lowering once.
pub lower-lower : (s : String) → lower (lower s) ≡ lower s
unfolding lower
lower-lower String.[] = refl
lower-lower (String.◌∷◌ c s) = ap₂ String.◌∷◌ (lower_char-lower_char c) (lower-lower s)

-- White space as `str.isspace` has it.
is_space : Char → Bool
is_space c =
    let n = code c in
    leb 9 n && leb n 13
    || leb 28 n && leb n 32
    || n == 133
    || n == 160
    || n == 5760
    || leb 8192 n && leb n 8202
    || n == 8232
    || n == 8233
    || n == 8239
    || n == 8287
    || n == 12288

unfoldable pub lstrip : String → String
unfolding is_space
lstrip String.[] = String.[]
lstrip (String.◌∷◌ c s) = if is_space c then lstrip s else String.◌∷◌ c s

unfoldable pub rstrip : String → String
unfolding is_space
rstrip String.[] = String.[]
rstrip (String.◌∷◌ c s) =
    let rest = rstrip s in if is_space c && str_eq rest "" then String.[] else String.◌∷◌ c rest

-- `s.strip()`
unfoldable pub strip : String → String
unfolding lstrip rstrip str_eq
strip s = rstrip (lstrip s)

rstrip-rstrip : (s : String) → rstrip (rstrip s) ≡ rstrip s
unfolding rstrip
rstrip-rstrip String.[] = refl
rstrip-rstrip (String.◌∷◌ c s) = elim (Bool-cases (is_space c && str_eq (rstrip s) "")) [
  | inl e ↦ rw (e, rstrip) refl
  | inr e ↦ rw (e, rstrip, rstrip-rstrip s, e) refl
]

lstrip-rstrip : (s : String) → lstrip (rstrip (lstrip s)) ≡ rstrip (lstrip s)
unfolding lstrip rstrip
lstrip-rstrip String.[] = refl
lstrip-rstrip (String.◌∷◌ c s) = elim (Bool-cases (is_space c)) [
  | inl e ↦ rw e (lstrip-rstrip s)
  | inr e ↦ rw (e, rstrip, e, lstrip, e) refl
]

-- Stripping twice is stripping once.
pub strip-strip : (s : String) → strip (strip s) ≡ strip s
unfolding strip
strip-strip s = rw (lstrip-rstrip s) (rstrip-rstrip (lstrip s))

digit : ℕ → Char
unfolding nth
digit n = nth ("0" ∷ "1" ∷ "2" ∷ "3" ∷ "4" ∷ "5" ∷ "6" ∷ "7" ∷ "8" ∷ "9" ∷ []) n "0"

-- The digits of `n`, most significant first, before `acc`; as many rounds as `n + 1` are enough.
digits : ℕ → ℕ → String → String
unfolding digit
digits zero n acc = acc
digits (suc fuel) n acc =
    let acc' = String.◌∷◌ (digit (n % 10)) acc in
    let rest = digits fuel (n / 10) acc' in if n / 10 == 0 then acc' else rest

-- `str(n)`
unfoldable pub show : ℕ → String
unfolding digits
show n = digits (suc n) n ""

-- `f"{n:02}"`
unfoldable pub two_digits : ℕ → String
unfolding show
two_digits n = if ltb n 10 then "0" <> show n else show n

-- `f"{n:04}"`
unfoldable pub four_digits : ℕ → String
unfolding show two_digits
four_digits n =
    if ltb n 100 then "00" <> two_digits n else if ltb n 1000 then "0" <> show n else show n
