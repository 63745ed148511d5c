-- ===== src/Tests/Parse.antt =====
-- Tests of the parsers of a verdict.
use issuebot.Prelude.{◌≤◌, String, List, [], ◌∷◌, ◌≡◌, refl, length, any, find, in_strs, str_eq}
use issuebot.Prelude.Dict.{lookup}
use issuebot.Prelude.Text.{lower, strip}
use issuebot.Agent.Verdict.{
  SubIssueDraft, issuebot_step, operator_step, TriageVerdict, split, ParentReviewVerdict, gap,
}
use issuebot.Agent.Json.{Json, text, array, object, no_items, item, no_members, member}
use issuebot.Agent.Checks.{parsed}
use issuebot.Agent.Verdict.Parse.{parse_verdict, parse_parent_review}
use issuebot.Agent.Verdict.Parse.Shape.{
  Fits, FitsReview, parse_verdict-Fits, parse_parent_review-FitsReview,
}
use issuebot.Agent.Verdict.Parse.Distinct.{
  AreScrubbed, parse_verdict-AreScrubbed, parse_parent_review-AreScrubbed,
}

-- A scrubber that finds nothing to mask.
abbrev no_secrets : String → String
no_secrets s = s

leaves_all : (s : String) → no_secrets s ≡ s
leaves_all s = refl

abbrev step : String → String → Json
step title kind = object (
    member "title" (text title)
      (member "body" (text "Do it.\r\nNow.") (member "kind" (text kind) no_members)))

abbrev steps : Json
steps = array (item (step " One" "issuebot") (item (step "Two " "operator") no_items))

abbrev split_answer : Json
split_answer = object (
    member "verdict" (text "split") (
      member "summary" (text "Two steps.") (
        member "fits_caps" (text "no") (
          member "lands_fast" (text "no") (
            member "needs_human" (text "no")
              (member "ignored_requests" (text "") (member "sub_issues" steps no_members)))))))

abbrev drafts : List SubIssueDraft
drafts =
    (record { title = "One"; body = "Do it.\nNow."; kind = issuebot_step })
    ∷ (record { title = "Two"; body = "Do it.\nNow."; kind = operator_step })
    ∷ []

abbrev split_verdict : TriageVerdict
split_verdict = record {
  verdict = split;
  summary = "Two steps.";
  fits_caps = "no";
  lands_fast = "no";
  needs_human = "no";
  ignored_requests = "";
  sub_issues = drafts;
}

split_parsed : parse_verdict no_secrets split_answer 5 ≡ parsed split_verdict
unfolding parse_verdict find in_strs any str_eq lookup strip lower
split_parsed = refl

parse_verdict-Fits_example : (length drafts ≤ 5) × Fits split (length drafts)
parse_verdict-Fits_example = parse_verdict-Fits no_secrets split_answer 5 split_verdict split_parsed

parse_verdict-AreScrubbed_example : AreScrubbed no_secrets drafts
parse_verdict-AreScrubbed_example =
    parse_verdict-AreScrubbed no_secrets split_answer 5 split_verdict split_parsed

abbrev gap_answer : Json
gap_answer = object (
    member "verdict" (text "gap") (
      member "summary" (text "The docs are missing.") (
        member "evidence" (text "docs/")
          (member "ignored_requests" (text "") (member "sub_issues" steps no_members)))))

abbrev gap_verdict : ParentReviewVerdict
gap_verdict = record {
  verdict = gap;
  summary = "The docs are missing.";
  evidence = "docs/";
  ignored_requests = "";
  sub_issues = drafts;
}

gap_parsed : parse_parent_review no_secrets gap_answer 5 ≡ parsed gap_verdict
unfolding parse_parent_review find in_strs any str_eq lookup strip lower
gap_parsed = refl

parse_parent_review-FitsReview_example : (length drafts ≤ 5) × FitsReview gap (length drafts)
parse_parent_review-FitsReview_example =
    parse_parent_review-FitsReview no_secrets gap_answer 5 gap_verdict gap_parsed

parse_parent_review-AreScrubbed_example : AreScrubbed no_secrets drafts
parse_parent_review-AreScrubbed_example =
    parse_parent_review-AreScrubbed no_secrets gap_answer 5 gap_verdict gap_parsed
