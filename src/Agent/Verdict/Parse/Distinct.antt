-- ===== src/Agent/Verdict/Parse/Distinct.antt =====
-- The titles of a verdict that agent/verdict.py accepts: no two of them are one title.
use issuebot.Prelude.{
  ℕ, String, List, [], ◌∷◌, map, true, false, str_eq, ltb, in_strs, any, length, ◌≡◌, ◌≢◌, ◌∙◌, sym,
  str_eq_iff, str_eq_refl, refl, inl, inr, arith, ◌⊎◌, Bool-cases, Option-cases,
}
use issuebot.Prelude.Dict.{Dict}
use issuebot.Prelude.Text.{lower, strip, show, ◌<>◌}
use issuebot.Agent.Verdict.{
  SubIssueDraft, TriageAnswer, ReviewAnswer, TriageVerdict, ParentReviewVerdict,
}
use issuebot.Orchestrator.Triage.{key}
use issuebot.Orchestrator.Filing.Growth.{drafted}
use issuebot.Agent.Json.{Json, null, array, items_of}
use issuebot.Agent.Checks.{parsed, refuse_if, value_at, fields}
use issuebot.Agent.Verdict.Parse.{
  drafts_of, drafts, reason_at, verdict_of, parent_verdict_of, answered, reviewed, answer_of,
  review_of, check_answer, check_review, verdict_fields, review_fields, parse_verdict,
  parse_parent_review, scrubbed,
}
use issuebot.Agent.Verdict.Parse.Shape.{Ends, bind-Ends, any-Ends}
use issuebot.Agent.Verdict.Parse.Titles.{IsStripped, AreNew, drafts_of-AreNew}

true_is_not_false : true ≢ false
true_is_not_false h = cc

seen_first : (k : String) (seen : List String) → in_strs k (k ∷ seen) ≡ true
unfolding in_strs any
seen_first k seen = ground (arith, str_eq_refl k)

-- No two drafts have one key.
abbrev pub AreDistinct : List SubIssueDraft → Type 0
AreDistinct [] = Unit
AreDistinct (d ∷ ds) = (drafted (key d.title) ds ≡ false) × AreDistinct ds

module _ (scrub : String → String) where
  -- The scrubber leaves the titles as they are, or changes one.
  Leaves : List SubIssueDraft → Type 0
  Leaves [] = Unit
  Leaves (d ∷ ds) = (scrub d.title ≡ d.title) × Leaves ds

  abbrev pub IsMasked : List SubIssueDraft → Type 0
  IsMasked [] = ⊥
  IsMasked (d ∷ ds) = (scrub d.title ≢ d.title) ⊎ IsMasked ds

  Leaves-or_IsMasked : (ds : List SubIssueDraft) → Leaves ds ⊎ IsMasked ds
  unfolding Leaves
  Leaves-or_IsMasked [] = inl tt
  Leaves-or_IsMasked (d ∷ ds) =
      ground (arith, Leaves-or_IsMasked ds, str_eq_iff (scrub d.title) d.title)

  key-scrubbed :
      (d : SubIssueDraft)
      → scrub d.title ≡ d.title
      → IsStripped d.title
      → key (scrubbed scrub d).title ≡ lower d.title
  unfolding key scrubbed
  key-scrubbed d same h = rw (same, h, h) refl

  not_drafted :
      (k : String) (seen : List String) (ds : List SubIssueDraft)
      → AreNew seen ds
      → Leaves ds
      → in_strs k seen ≡ true
      → drafted k (map (scrubbed scrub) ds) ≡ false
  unfolding drafted any in_strs Leaves
  not_drafted k seen [] h same i = refl
  not_drafted k seen (d ∷ ds) ((new, stripped), h) same i =
      let later = not_drafted k (lower d.title ∷ seen) ds h same.1 (ground arith) in
      elim (Bool-cases (str_eq (lower d.title) k)) [
        | inl equal ↦
            let e : lower d.title ≡ k = (str_eq_iff (lower d.title) k).0 equal in
            absurd (true_is_not_false (sym i ∙ rw e at new))
        | inr other ↦ rw (key-scrubbed d same.0 stripped, other) later
      ]

  AreDistinct-AreNew :
      (seen : List String) (ds : List SubIssueDraft)
      → AreNew seen ds
      → Leaves ds
      → AreDistinct (map (scrubbed scrub) ds)
  unfolding Leaves
  AreDistinct-AreNew seen [] h same = tt
  AreDistinct-AreNew seen (d ∷ ds) ((new, stripped), h) same = (
    rw (key-scrubbed d same.0 stripped) (
        not_drafted (lower d.title) (lower d.title ∷ seen) ds h same.1
          (seen_first (lower d.title) seen)),
    AreDistinct-AreNew (lower d.title ∷ seen) ds h same.1,
  )

  -- The scrubbed form of a draft: both texts masked, the title without the spaces that masking leaves.
  abbrev pub masked : SubIssueDraft → SubIssueDraft
  masked d = record { title = strip (scrub d.title); body = scrub d.body; kind = d.kind }

  -- The drafts are these ones scrubbed: their titles are stripped and no two of them are equal in lower
  -- case, and the drafts have different keys unless the scrubber has changed one of the titles.
  abbrev pub AreScrubbed : List SubIssueDraft → Type 0
  AreScrubbed ds =
      (found : List SubIssueDraft) × (ds ≡ map masked found)
      × AreNew [] found
      × (AreDistinct ds ⊎ IsMasked found)

  found-AreScrubbed :
      (found : List SubIssueDraft) → AreNew [] found → AreScrubbed (map (scrubbed scrub) found)
  unfolding scrubbed
  found-AreScrubbed found new = elim (Leaves-or_IsMasked found) [
    | inl same ↦ (found, refl, new, inl (AreDistinct-AreNew [] found new same))
    | inr changed ↦ (found, refl, new, inr changed)
  ]

  drafts-AreScrubbed :
      (j : Json) (max_sub_issues : ℕ) → Ends AreScrubbed (drafts scrub j max_sub_issues)
  unfolding drafts
  drafts-AreScrubbed (array steps) max_sub_issues =
      any-Ends AreScrubbed
        (refuse_if (ltb max_sub_issues (length (items_of steps)))
          ("a verdict may carry at most " <> show max_sub_issues <> " sub-issues"))
        _
        (λ _.
          bind-Ends (AreNew []) AreScrubbed (drafts_of scrub [] (items_of steps)) _
            (drafts_of-AreNew scrub [] (items_of steps)) found-AreScrubbed)
  drafts-AreScrubbed _ max_sub_issues = tt

  verdict_of-AreScrubbed :
      (obj : Dict Json) (max_sub_issues : ℕ) (answer : TriageAnswer)
      → Ends (λ v. AreScrubbed v.sub_issues) (verdict_of scrub obj max_sub_issues answer)
  unfolding verdict_of
  verdict_of-AreScrubbed obj max_sub_issues answer =
      any-Ends _ (reason_at scrub obj "summary") _ (λ summary.
        any-Ends _ (reason_at scrub obj "fits_caps") _ (λ fits_caps.
          any-Ends _ (reason_at scrub obj "lands_fast") _ (λ lands_fast.
            any-Ends _ (reason_at scrub obj "needs_human") _ (λ needs_human.
              any-Ends _ (reason_at scrub obj "ignored_requests") _ (λ ignored_requests.
                bind-Ends AreScrubbed _ (drafts scrub (value_at obj "sub_issues") max_sub_issues) _
                  (drafts-AreScrubbed (value_at obj "sub_issues") max_sub_issues)
                  (λ found scrubbed_of.
                    any-Ends _ (check_answer answer found) _ (λ _. scrubbed_of)))))))

  answered-AreScrubbed :
      (obj : Dict Json) (max_sub_issues : ℕ)
      → Ends (λ v. AreScrubbed v.sub_issues) (answered scrub obj max_sub_issues)
  unfolding answered
  answered-AreScrubbed obj max_sub_issues =
      elim (Option-cases (answer_of (value_at obj "verdict"))) [
        | inl e ↦ rw (e, answered) tt
        | inr (answer, e) ↦ rw (e, answered) (verdict_of-AreScrubbed obj max_sub_issues answer)
      ]

  parse_verdict-Ends :
      (raw : Json) (max_sub_issues : ℕ)
      → Ends (λ v. AreScrubbed v.sub_issues) (parse_verdict scrub raw max_sub_issues)
  unfolding parse_verdict
  parse_verdict-Ends null max_sub_issues = tt
  parse_verdict-Ends raw max_sub_issues =
      any-Ends (λ (v : TriageVerdict). AreScrubbed v.sub_issues)
        (fields scrub raw verdict_fields "the verdict") (λ obj. answered scrub obj max_sub_issues)
        (λ obj. answered-AreScrubbed obj max_sub_issues)

  -- Whatever the scrubber, the drafts of an accepted verdict are the scrubbed form of drafts whose titles
  -- are stripped and pairwise different in lower case; so no two drafts have one key, unless the
  -- scrubber has changed one of those titles.
  pub parse_verdict-AreScrubbed :
      (raw : Json) (max_sub_issues : ℕ) (v : TriageVerdict)
      → parse_verdict scrub raw max_sub_issues ≡ parsed v
      → AreScrubbed v.sub_issues
  parse_verdict-AreScrubbed raw max_sub_issues v h = rw h at (parse_verdict-Ends raw max_sub_issues)

  parent_verdict_of-AreScrubbed :
      (obj : Dict Json) (max_sub_issues : ℕ) (answer : ReviewAnswer)
      → Ends (λ v. AreScrubbed v.sub_issues) (parent_verdict_of scrub obj max_sub_issues answer)
  unfolding parent_verdict_of
  parent_verdict_of-AreScrubbed obj max_sub_issues answer =
      any-Ends _ (reason_at scrub obj "summary") _ (λ summary.
        any-Ends _ (reason_at scrub obj "evidence") _ (λ evidence.
          any-Ends _ (reason_at scrub obj "ignored_requests") _ (λ ignored_requests.
            bind-Ends AreScrubbed _ (drafts scrub (value_at obj "sub_issues") max_sub_issues) _
              (drafts-AreScrubbed (value_at obj "sub_issues") max_sub_issues)
              (λ found scrubbed_of. any-Ends _ (check_review answer found) _ (λ _. scrubbed_of)))))

  reviewed-AreScrubbed :
      (obj : Dict Json) (max_sub_issues : ℕ)
      → Ends (λ v. AreScrubbed v.sub_issues) (reviewed scrub obj max_sub_issues)
  unfolding reviewed
  reviewed-AreScrubbed obj max_sub_issues =
      elim (Option-cases (review_of (value_at obj "verdict"))) [
        | inl e ↦ rw (e, reviewed) tt
        | inr (answer, e) ↦
            rw (e, reviewed) (parent_verdict_of-AreScrubbed obj max_sub_issues answer)
      ]

  parse_parent_review-Ends :
      (raw : Json) (max_sub_issues : ℕ)
      → Ends (λ v. AreScrubbed v.sub_issues) (parse_parent_review scrub raw max_sub_issues)
  unfolding parse_parent_review
  parse_parent_review-Ends null max_sub_issues = tt
  parse_parent_review-Ends raw max_sub_issues =
      any-Ends (λ (v : ParentReviewVerdict). AreScrubbed v.sub_issues)
        (fields scrub raw review_fields "the verdict") (λ obj. reviewed scrub obj max_sub_issues)
        (λ obj. reviewed-AreScrubbed obj max_sub_issues)

  -- Whatever the scrubber, the drafts of an accepted review are the scrubbed form of drafts whose titles
  -- are stripped and pairwise different in lower case; so no two drafts have one key, unless the
  -- scrubber has changed one of those titles.
  pub parse_parent_review-AreScrubbed :
      (raw : Json) (max_sub_issues : ℕ) (v : ParentReviewVerdict)
      → parse_parent_review scrub raw max_sub_issues ≡ parsed v
      → AreScrubbed v.sub_issues
  parse_parent_review-AreScrubbed raw max_sub_issues v h =
      rw h at (parse_parent_review-Ends raw max_sub_issues)
