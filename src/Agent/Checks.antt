-- ===== src/Agent/Checks.antt =====
-- The checks that both parsers of agent/verdict.py make. A string of Python that is not valid Unicode
-- cannot be written here, `isidentifier` is that of ASCII text, and the scrubber of agent/scrub.py is a
-- parameter.
use Prim.Native.Char.{Char, code}
use issuebot.Prelude.{
  ℕ, suc, String, none, some, List, map, Bool, true, false, not, ◌&&◌, ◌||◌, find, ltb, leb, ◌==◌,
  str_eq, in_strs, if◌then◌else◌,
}
use issuebot.Prelude.Dict.{Dict, lookup}
use issuebot.Prelude.Text.{strip, show, ◌<>◌}
use issuebot.Agent.Json.{Json, null, text, object, members_of}

-- A value, or the message of the `VerdictError`.
pub data Parsed (A : Type 0) : Type 0 where
  parsed : A → Parsed A
  verdict_error : String → Parsed A

module _ {A B : Type 0} where
  infixl 5 ◌>>=◌ ◌>>◌
  abbrev pub ◌>>=◌ : Parsed A → (A → Parsed B) → Parsed B
  ◌>>=◌ (parsed a) f = f a
  ◌>>=◌ (verdict_error e) f = verdict_error e

  abbrev pub ◌>>◌ : Parsed A → Parsed B → Parsed B
  m >> n = m >>= λ _. n

-- `if refused: raise VerdictError(message)`
abbrev pub refuse_if : Bool → String → Parsed (Unit {0})
refuse_if refused message = if refused then verdict_error message else parsed tt

abbrev pub title_limit : ℕ
title_limit = 200

abbrev pub body_limit : ℕ
body_limit = 20000

abbrev pub reason_limit : ℕ
reason_limit = 2000

-- `len(s)`
unfoldable pub text_length : String → ℕ
text_length String.[] = 0
text_length (String.◌∷◌ c s) = suc (text_length s)

unfoldable pub any_char : (Char → Bool) → String → Bool
any_char p String.[] = false
any_char p (String.◌∷◌ c s) = p c || any_char p s

-- The category `Cc`.
unfoldable pub is_control : Char → Bool
is_control c = ltb (code c) 32 || leb 127 (code c) && ltb (code c) 160

-- `c in "\n\t"`
unfoldable pub is_line_or_tab : Char → Bool
is_line_or_tab c = code c == 10 || code c == 9

unfoldable pub carriable : String → String → (Char → Bool) → Parsed (Unit {0})
unfolding is_control any_char
carriable name value keep =
    refuse_if (any_char (λ c. is_control c && not (keep c)) value)
      (name <> " has a control character in it")

starts_line : String → Bool
starts_line String.[] = false
starts_line (String.◌∷◌ c s) = code c == 10

newline : Char
newline = "\n"

-- `value.replace("\r\n", "\n")`, and `value.replace("\r", "\n")`
unfoldable pub without_crlf : String → String
unfolding starts_line
without_crlf String.[] = String.[]
without_crlf (String.◌∷◌ c s) =
    let rest = without_crlf s in if code c == 13 && starts_line s then rest else String.◌∷◌ c rest

unfoldable pub without_cr : String → String
unfolding newline
without_cr String.[] = String.[]
without_cr (String.◌∷◌ c s) = String.◌∷◌ (if code c == 13 then newline else c) (without_cr s)

-- `obj[name]`, of an object that `fields` has found to have it
unfoldable pub value_at : Dict Json → String → Json
value_at obj name = elim (lookup obj name) [ none ↦ null | some j ↦ j ]

-- The part of `_text` from the string on.
unfoldable pub checked_text : String → String → ℕ → Bool → Bool → Parsed String
unfolding carriable is_line_or_tab without_crlf without_cr text_length
checked_text name value limit required line_endings =
    let value' : String = if line_endings then without_cr (without_crlf value) else value in
    let stripped = strip value' in
    carriable name value' is_line_or_tab
    >> refuse_if (ltb limit (text_length stripped))
        (name <> " is longer than " <> show limit <> " characters")
    >> refuse_if (required && str_eq stripped "") (name <> " must not be empty")
    >> parsed stripped

unfoldable pub text_at : Dict Json → String → ℕ → Bool → Bool → Parsed String
unfolding checked_text value_at
text_at obj name limit required line_endings = elim (value_at obj name) [
  | text value ↦ checked_text name value limit required line_endings
  | _ ↦ verdict_error (name <> " must be a string")
]

-- `s.isidentifier()`, of ASCII text
is_word : Char → Bool
is_word c =
    let n = code c in
    leb 48 n && leb n 57 || leb 65 n && leb n 90 || leb 97 n && leb n 122 || n == 95

unfoldable pub is_identifier : String → Bool
unfolding is_word any_char
is_identifier String.[] = false
is_identifier (String.◌∷◌ c s) =
    not (leb 48 (code c) && leb (code c) 57)
    && (is_word c && not (any_char (λ d. not (is_word d)) s))

module _ (scrub : String → String) where
  -- The name of an unknown field, if it may be shown.
  unfoldable pub shown_field : String → String
  unfolding is_identifier text_length
  shown_field name = if is_identifier name && leb (text_length name) 40 then scrub name else ""

  unfoldable pub unexpected : String → String → String
  unfolding shown_field
  unexpected name what =
      let shown = shown_field name in
      if str_eq shown ""
      then "unexpected field in " <> what
      else "unexpected field " <> shown <> " in " <> what

  -- The two loops of `_fields`, over the members and over the names.
  unfoldable pub checked_fields : Dict Json → List String → String → Parsed (Dict Json)
  unfolding unexpected
  checked_fields obj names what = elim (find (λ m. not (in_strs m.0 names)) obj) [
    | some m ↦ verdict_error (unexpected m.0 what)
    | none ↦ elim (find (λ name. not (in_strs name (map (λ m. m.0) obj))) names) [
      | some name ↦ verdict_error ("missing field " <> name <> " in " <> what)
      | none ↦ parsed obj
    ]
  ]

  unfoldable pub fields : Json → List String → String → Parsed (Dict Json)
  unfolding checked_fields members_of
  fields (object ms) names what = checked_fields (members_of ms) names what
  fields _ names what = verdict_error (what <> " must be an object")

-- A boundary of `str.splitlines`, other than the first half of "\r\n".
is_boundary : Char → Bool
is_boundary c =
    let n = code c in
    leb 10 n && leb n 13 || leb 28 n && leb n 30 || n == 133 || n == 8232 || n == 8233

-- `len(s.splitlines())`; `pending` when the line that is open has a character already.
unfoldable pub count_lines : Bool → String → ℕ
unfolding is_boundary starts_line
count_lines pending String.[] = if pending then 1 else 0
count_lines pending (String.◌∷◌ c s) =
    let ended = count_lines false s in
    let going = count_lines true s in
    if is_boundary c && not (code c == 13 && starts_line s) then suc ended else going
