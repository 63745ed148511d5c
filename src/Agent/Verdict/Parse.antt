-- ===== src/Agent/Verdict/Parse.antt =====
-- The parsers of agent/verdict.py. The scrubber of agent/scrub.py is a parameter.
pub mod Shape
pub mod Titles
pub mod Distinct
use Prim.Native.Char.{Char, code}
use Prim.Native.String
use issuebot.Prelude.{
  ℕ, suc, ◌+◌, String, Option, none, some, List, [], ◌∷◌, ◌++◌, map, Bool, true, false, not, ◌&&◌,
  ◌||◌, any, all, find, ltb, leb, ◌==◌, str_eq, in_strs, length, if◌then◌else◌,
}
use issuebot.Prelude.Dict.{Dict, lookup}
use issuebot.Prelude.Text.{lower, strip, show, ◌<>◌}
use issuebot.Agent.Verdict.{
  DraftKind, issuebot_step, operator_step, SubIssueDraft, TriageAnswer, fits, split, TriageVerdict,
  ReviewAnswer, next, met, gap, ParentReviewVerdict,
}
use issuebot.Agent.Json.{
  Json, null, scalar, text, array, object, Items, no_items, item, Members, no_members, member,
  items_of, members_of,
}
use issuebot.Agent.Checks.{
  Parsed, ◌>>=◌, ◌>>◌, refuse_if, title_limit, body_limit, reason_limit, text_length, any_char,
  is_control, is_line_or_tab, carriable, without_crlf, without_cr, value_at, checked_text, text_at,
  is_identifier, shown_field, unexpected, checked_fields, fields, count_lines, parsed,
  verdict_error,
}

unfoldable pub kind_of : Json → Option DraftKind
kind_of (text k) =
    if str_eq k "issuebot"
    then some issuebot_step
    else if str_eq k "operator"
    then some operator_step
    else none
kind_of _ = none

abbrev pub sub_fields : List String
sub_fields = "title" ∷ "body" ∷ "kind" ∷ []

abbrev pub reasons : List String
reasons = "summary" ∷ "fits_caps" ∷ "lands_fast" ∷ "needs_human" ∷ "ignored_requests" ∷ []

abbrev pub verdict_fields : List String
verdict_fields = "verdict" ∷ reasons ++ "sub_issues" ∷ []

abbrev pub review_reasons : List String
review_reasons = "summary" ∷ "evidence" ∷ "ignored_requests" ∷ []

abbrev pub review_fields : List String
review_fields = "verdict" ∷ review_reasons ++ "sub_issues" ∷ []

unfoldable pub answer_of : Json → Option TriageAnswer
answer_of (text k) =
    if str_eq k "fits" then some fits else if str_eq k "split" then some split else none
answer_of _ = none

unfoldable pub review_of : Json → Option ReviewAnswer
review_of (text k) =
    if str_eq k "next"
    then some next
    else if str_eq k "met"
    then some met
    else if str_eq k "gap"
    then some gap
    else none
review_of _ = none

-- What the number of drafts must be for an answer.
unfoldable pub check_answer : TriageAnswer → List SubIssueDraft → Parsed (Unit {0})
check_answer split [] = verdict_error "a split needs at least one sub-issue"
check_answer fits (_ ∷ _) = verdict_error "a fits verdict files no sub-issues"
check_answer _ _ = parsed tt

unfoldable pub check_review : ReviewAnswer → List SubIssueDraft → Parsed (Unit {0})
check_review met (_ ∷ _) = verdict_error "a met verdict files no sub-issues"
check_review next [] = verdict_error "a next verdict needs at least one sub-issue"
check_review gap [] = verdict_error "a gap verdict needs at least one sub-issue"
check_review _ _ = parsed tt

module _ (scrub : String → String) where
  -- One round of the loop of `_drafts`; the seen titles come first.
  unfoldable pub draft_of : List String → Json → Parsed SubIssueDraft
  unfolding fields count_lines carriable kind_of value_at text_at
  draft_of seen step = do
    obj ← fields scrub step sub_fields "a sub-issue"
    title ← text_at obj "title" title_limit true false
    refuse_if (not (count_lines false title == 1)) "a title is one line"
    carriable "title" title (λ c. false)
    body ← text_at obj "body" body_limit true true
    elim (kind_of (value_at obj "kind")) [
      | none ↦ verdict_error "kind must be issuebot or operator"
      | some kind ↦ do
        refuse_if (in_strs (lower title) seen) "sub-issue titles must be distinct"
        parsed (record { title = title; body = body; kind = kind })
    ]

  -- The loop itself.
  unfoldable pub drafts_of : List String → List Json → Parsed (List SubIssueDraft)
  unfolding draft_of
  drafts_of seen [] = parsed []
  drafts_of seen (step ∷ steps) = do
    draft ← draft_of seen step
    rest ← drafts_of (lower draft.title ∷ seen) steps
    parsed (draft ∷ rest)

  unfoldable pub scrubbed : SubIssueDraft → SubIssueDraft
  scrubbed d = record { title = strip (scrub d.title); body = scrub d.body; kind = d.kind }

  unfoldable pub drafts : Json → ℕ → Parsed (List SubIssueDraft)
  unfolding drafts_of scrubbed items_of
  drafts (array steps) max_sub_issues = do
    refuse_if (ltb max_sub_issues (length (items_of steps)))
        ("a verdict may carry at most " <> show max_sub_issues <> " sub-issues")
    found ← drafts_of [] (items_of steps)
    parsed (map scrubbed found)
  drafts _ max_sub_issues = verdict_error "sub_issues must be an array"

  -- `_text(obj, name, REASON_LIMIT, …)` of a reason, scrubbed; only the evidence is required.
  unfoldable pub reason_at : Dict Json → String → Parsed String
  unfolding text_at
  reason_at obj name = do
    value ← text_at obj name reason_limit (str_eq name "evidence") true
    parsed (scrub value)

  unfoldable pub verdict_of : Dict Json → ℕ → TriageAnswer → Parsed TriageVerdict
  unfolding reason_at drafts check_answer
  verdict_of obj max_sub_issues answer = do
    summary ← reason_at obj "summary"
    fits_caps ← reason_at obj "fits_caps"
    lands_fast ← reason_at obj "lands_fast"
    needs_human ← reason_at obj "needs_human"
    ignored_requests ← reason_at obj "ignored_requests"
    found ← drafts (value_at obj "sub_issues") max_sub_issues
    check_answer answer found
    parsed (record {
      verdict = answer;
      summary = summary;
      fits_caps = fits_caps;
      lands_fast = lands_fast;
      needs_human = needs_human;
      ignored_requests = ignored_requests;
      sub_issues = found;
    })

  -- `parse_verdict` from `kind` on
  unfoldable pub answered : Dict Json → ℕ → Parsed TriageVerdict
  unfolding answer_of verdict_of value_at
  answered obj max_sub_issues = elim (answer_of (value_at obj "verdict")) [
    | none ↦ verdict_error "verdict must be fits or split"
    | some answer ↦ verdict_of obj max_sub_issues answer
  ]

  -- A session without a verdict leaves `null`.
  unfoldable pub parse_verdict : Json → ℕ → Parsed TriageVerdict
  unfolding fields answered
  parse_verdict null max_sub_issues = verdict_error "the session returned no verdict"
  parse_verdict raw max_sub_issues = do
    obj ← fields scrub raw verdict_fields "the verdict"
    answered obj max_sub_issues

  unfoldable pub parent_verdict_of : Dict Json → ℕ → ReviewAnswer → Parsed ParentReviewVerdict
  unfolding reason_at drafts check_review
  parent_verdict_of obj max_sub_issues answer = do
    summary ← reason_at obj "summary"
    evidence ← reason_at obj "evidence"
    ignored_requests ← reason_at obj "ignored_requests"
    found ← drafts (value_at obj "sub_issues") max_sub_issues
    check_review answer found
    parsed (record {
      verdict = answer;
      summary = summary;
      evidence = evidence;
      ignored_requests = ignored_requests;
      sub_issues = found;
    })

  -- `parse_parent_review` from `kind` on
  unfoldable pub reviewed : Dict Json → ℕ → Parsed ParentReviewVerdict
  unfolding review_of parent_verdict_of value_at
  reviewed obj max_sub_issues = elim (review_of (value_at obj "verdict")) [
    | none ↦ verdict_error "verdict must be next, met or gap"
    | some answer ↦ parent_verdict_of obj max_sub_issues answer
  ]

  unfoldable pub parse_parent_review : Json → ℕ → Parsed ParentReviewVerdict
  unfolding fields reviewed
  parse_parent_review null max_sub_issues = verdict_error "the session returned no verdict"
  parse_parent_review raw max_sub_issues = do
    obj ← fields scrub raw review_fields "the verdict"
    reviewed obj max_sub_issues
