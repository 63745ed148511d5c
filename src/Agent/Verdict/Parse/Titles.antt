-- ===== src/Agent/Verdict/Parse/Titles.antt =====
-- The titles of the drafts that agent/verdict.py accepts are stripped, and each is new when it is read.
use issuebot.Prelude.{
  ℕ, String, Option, none, some, List, [], ◌∷◌, Bool, true, false, not, ◌==◌, ◌&&◌, str_eq, ltb,
  in_strs, ◌≡◌, refl, if◌then◌else◌,
}
use issuebot.Prelude.Dict.{Dict}
use issuebot.Prelude.Text.{lower, strip, strip-strip, show, ◌<>◌}
use issuebot.Agent.Verdict.{DraftKind, SubIssueDraft}
use issuebot.Agent.Json.{Json, text}
use issuebot.Agent.Checks.{
  Parsed, parsed, verdict_error, ◌>>◌, refuse_if, value_at, checked_text, text_at, carriable,
  fields, title_limit, body_limit, count_lines, is_line_or_tab, text_length, without_cr,
  without_crlf,
}
use issuebot.Agent.Verdict.Parse.{sub_fields, kind_of, draft_of, drafts_of}
use issuebot.Agent.Verdict.Parse.Shape.{Ends, bind-Ends, any-Ends}

refuse_if-Ends : (b : Bool) (message : String) → Ends (λ _. b ≡ false) (refuse_if b message)
refuse_if-Ends true message = tt
refuse_if-Ends false message = refl

abbrev pub IsStripped : String → Type 0
IsStripped s = strip s ≡ s

checked_text-IsStripped :
    (name value : String) (limit : ℕ) (required line_endings : Bool)
    → Ends IsStripped (checked_text name value limit required line_endings)
unfolding checked_text
checked_text-IsStripped name value limit required line_endings =
    let value' : String = if line_endings then without_cr (without_crlf value) else value in
    let checks =
      carriable name value' is_line_or_tab
      >> refuse_if (ltb limit (text_length (strip value')))
          (name <> " is longer than " <> show limit <> " characters")
      >> refuse_if (required && str_eq (strip value') "") (name <> " must not be empty") in
    any-Ends IsStripped checks (λ _. parsed (strip value')) (λ _. strip-strip value')

text_at-IsStripped :
    (obj : Dict Json) (name : String) (limit : ℕ) (required line_endings : Bool)
    → Ends IsStripped (text_at obj name limit required line_endings)
unfolding text_at
text_at-IsStripped obj name limit required line_endings =
    elim (value_at obj name)
      as (λ j. Ends IsStripped (elim j as (λ _. Parsed String) [
        | text value ↦ checked_text name value limit required line_endings
        | _ ↦ verdict_error (name <> " must be a string")
      ])) [ text value ↦ checked_text-IsStripped name value limit required line_endings | _ ↦ tt ]

-- A title that is stripped, and new among those seen.
abbrev pub IsNew : List String → SubIssueDraft → Type 0
IsNew seen d = (in_strs (lower d.title) seen ≡ false) × IsStripped d.title

-- The titles of the drafts are new one after the other.
abbrev pub AreNew : List String → List SubIssueDraft → Type 0
AreNew seen [] = Unit
AreNew seen (d ∷ ds) = IsNew seen d × AreNew (lower d.title ∷ seen) ds

kind-IsNew :
    (seen : List String) (title body : String) (o : Option DraftKind)
    → IsStripped title
    → Ends (IsNew seen) (elim o as (λ _. Parsed SubIssueDraft) [
      | none ↦ verdict_error "kind must be issuebot or operator"
      | some kind ↦
          refuse_if (in_strs (lower title) seen) "sub-issue titles must be distinct"
          >> parsed (record { title = title; body = body; kind = kind })
    ])
kind-IsNew seen title body none s = tt
kind-IsNew seen title body (some kind) s =
    bind-Ends (λ _. in_strs (lower title) seen ≡ false) (IsNew seen)
      (refuse_if (in_strs (lower title) seen) "sub-issue titles must be distinct") _
      (refuse_if-Ends (in_strs (lower title) seen) "sub-issue titles must be distinct")
      (λ _ h. (h, s))

module _ (scrub : String → String) where
  draft_of-IsNew : (seen : List String) (step : Json) → Ends (IsNew seen) (draft_of scrub seen step)
  unfolding draft_of
  draft_of-IsNew seen step =
      any-Ends (IsNew seen) (fields scrub step sub_fields "a sub-issue") _ (λ obj.
        bind-Ends IsStripped (IsNew seen) (text_at obj "title" title_limit true false) _
          (text_at-IsStripped obj "title" title_limit true false)
          (λ title s.
            any-Ends (IsNew seen)
              (refuse_if (not (count_lines false title == 1)) "a title is one line") _
              (λ _. any-Ends (IsNew seen) (carriable "title" title (λ c. false)) _ (λ _.
                any-Ends (IsNew seen) (text_at obj "body" body_limit true true) _
                  (λ body. kind-IsNew seen title body (kind_of (value_at obj "kind")) s)))))

  pub drafts_of-AreNew :
      (seen : List String) (steps : List Json) → Ends (AreNew seen) (drafts_of scrub seen steps)
  unfolding drafts_of
  drafts_of-AreNew seen [] = tt
  drafts_of-AreNew seen (step ∷ steps) =
      bind-Ends (IsNew seen) (AreNew seen) (draft_of scrub seen step) _ (draft_of-IsNew seen step)
        (λ d h.
          bind-Ends (AreNew (lower d.title ∷ seen)) (AreNew seen)
            (drafts_of scrub (lower d.title ∷ seen) steps) _
            (drafts_of-AreNew (lower d.title ∷ seen) steps) (λ ds i. (h, i)))
