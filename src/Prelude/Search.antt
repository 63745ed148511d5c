-- ===== src/Prelude/Search.antt =====
-- More of the methods of `str`: the search for a part, and the splitting at line ends.
use Prim.Native.Nat.{ℕ, zero, suc}
use Prim.Native.Char.{Char, code}
use Prim.Native.String.{String}
use mathlib.Core.Path.{◌≡◌, refl}
use mathlib.Core.Bool.{Bool, true, false, ◌&&◌, ◌||◌}
use mathlib.Core.List.{List, [], ◌∷◌}
use issuebot.Prelude.Tests.{◌==◌, str_eq, if◌then◌else◌}

-- `s.startswith(part)`
unfoldable pub starts_with : String → String → Bool
starts_with s String.[] = true
starts_with String.[] (String.◌∷◌ d part) = false
starts_with (String.◌∷◌ c s) (String.◌∷◌ d part) = code c == code d && starts_with s part

-- `part in s`
unfoldable pub contains : String → String → Bool
unfolding starts_with
contains String.[] part = starts_with String.[] part
contains (String.◌∷◌ c s) part = starts_with (String.◌∷◌ c s) part || contains s part

is_newline : Char → Bool
is_newline c = code c == 10

-- `s.rstrip("\n")`
unfoldable pub rstrip_newlines : String → String
unfolding is_newline str_eq
rstrip_newlines String.[] = String.[]
rstrip_newlines (String.◌∷◌ c s) =
    let rest = rstrip_newlines s in
    if is_newline c && str_eq rest "" then String.[] else String.◌∷◌ c rest

-- `c` before the first line.
on_first_line : Char → List String → List String
on_first_line c [] = String.◌∷◌ c String.[] ∷ []
on_first_line c (line ∷ lines) = String.◌∷◌ c line ∷ lines

-- `s.split("\n")`
unfoldable pub split_lines : String → List String
unfolding is_newline on_first_line
split_lines String.[] = String.[] ∷ []
split_lines (String.◌∷◌ c s) =
    let rest = split_lines s in if is_newline c then String.[] ∷ rest else on_first_line c rest

-- `len(s)` and `s[:n]`
unfoldable pub str_length : String → ℕ
str_length String.[] = 0
str_length (String.◌∷◌ c s) = suc (str_length s)

unfoldable pub str_take : ℕ → String → String
str_take zero s = String.[]
str_take (suc n) String.[] = String.[]
str_take (suc n) (String.◌∷◌ c s) = String.◌∷◌ c (str_take n s)

lines_of_three : split_lines "one\n\ntwo" ≡ "one" ∷ "" ∷ "two" ∷ []
unfolding split_lines
lines_of_three = refl

found_inside : contains "Run `r1` (attempt 2)" "`r1`" ≡ true
unfolding contains
found_inside = refl

no_newlines_left : rstrip_newlines "note\n\n" ≡ "note"
unfolding rstrip_newlines
no_newlines_left = refl
