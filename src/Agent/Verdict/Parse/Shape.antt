-- ===== src/Agent/Verdict/Parse/Shape.antt =====
-- What the parsers of agent/verdict.py accept.
use issuebot.Prelude.{
  ℕ, suc, ◌≤◌, ◌<◌, String, List, [], ◌∷◌, map, false, ltb, length, ◌≡◌, refl, ap, inl, inr, arith,
  Bool-cases, Option-cases,
}
use issuebot.Prelude.Dict.{Dict}
use issuebot.Prelude.Text.{lower}
use issuebot.Agent.Verdict.{
  SubIssueDraft, TriageAnswer, fits, split, TriageVerdict, ReviewAnswer, next, met, gap,
  ParentReviewVerdict,
}
use issuebot.Agent.Json.{Json, null, array, items_of}
use issuebot.Agent.Checks.{Parsed, parsed, verdict_error, ◌>>=◌, value_at, fields}
use issuebot.Agent.Verdict.Parse.{
  drafts_of, drafts, scrubbed, check_answer, check_review, verdict_of, parse_verdict,
  parent_verdict_of, parse_parent_review, reason_at, answer_of, review_of, answered, reviewed,
  verdict_fields, review_fields, draft_of,
}

-- A result with some property, or an error.
abbrev pub Ends : {A : Type 0} → (A → Type 0) → Parsed A → Type 0
Ends P (parsed a) = P a
Ends P (verdict_error _) = Unit

pub bind-Ends :
    {A B : Type 0} (P : A → Type 0) (Q : B → Type 0) (m : Parsed A) (f : A → Parsed B)
    → Ends P m
    → ((a : A) → P a → Ends Q (f a))
    → Ends Q (m >>= f)
bind-Ends P Q (parsed a) f p h = h a p
bind-Ends P Q (verdict_error e) f p h = tt

-- Nothing is known of what comes first.
pub any-Ends :
    {A B : Type 0} (Q : B → Type 0) (m : Parsed A) (f : A → Parsed B)
    → ((a : A) → Ends Q (f a))
    → Ends Q (m >>= f)
any-Ends Q (parsed a) f h = h a
any-Ends Q (verdict_error e) f h = tt

-- The number of drafts that goes with an answer.
abbrev pub Fits : TriageAnswer → ℕ → Type 0
Fits fits n = n ≡ 0
Fits split n = 0 < n

abbrev pub FitsReview : ReviewAnswer → ℕ → Type 0
FitsReview met n = n ≡ 0
FitsReview _ n = 0 < n

abbrev pub Good : ℕ → TriageVerdict → Type 0
Good max_sub_issues v =
    (length v.sub_issues ≤ max_sub_issues) × Fits v.verdict (length v.sub_issues)

abbrev pub GoodReview : ℕ → ParentReviewVerdict → Type 0
GoodReview max_sub_issues v =
    (length v.sub_issues ≤ max_sub_issues) × FitsReview v.verdict (length v.sub_issues)

check_answer-Ends :
    (answer : TriageAnswer) (ds : List SubIssueDraft)
    → Ends (λ _. Fits answer (length ds)) (check_answer answer ds)
unfolding check_answer
check_answer-Ends fits [] = refl
check_answer-Ends fits (d ∷ ds) = tt
check_answer-Ends split [] = tt
check_answer-Ends split (d ∷ ds) = omega arith

check_review-Ends :
    (answer : ReviewAnswer) (ds : List SubIssueDraft)
    → Ends (λ _. FitsReview answer (length ds)) (check_review answer ds)
unfolding check_review
check_review-Ends met [] = refl
check_review-Ends met (d ∷ ds) = tt
check_review-Ends next [] = tt
check_review-Ends next (d ∷ ds) = omega arith
check_review-Ends gap [] = tt
check_review-Ends gap (d ∷ ds) = omega arith

length-map : {A B : Type 0} (f : A → B) (xs : List A) → length (map f xs) ≡ length xs
length-map f [] = refl
length-map f (x ∷ xs) = ap suc (length-map f xs)

within_limit : (limit n : ℕ) → ltb limit n ≡ false → n ≤ limit
within_limit limit n h = ground arith

module _ (scrub : String → String) where
  -- One draft for each step.
  length-drafts_of :
      (seen : List String) (steps : List Json)
      → Ends (λ ds. length ds ≡ length steps) (drafts_of scrub seen steps)
  unfolding drafts_of
  length-drafts_of seen [] = refl
  length-drafts_of seen (step ∷ steps) = any-Ends _ (draft_of scrub seen step) _ (λ draft.
      bind-Ends (λ ds. length ds ≡ length steps) _
        (drafts_of scrub (lower draft.title ∷ seen) steps) _
        (length-drafts_of (lower draft.title ∷ seen) steps) (λ ds h. ap suc h))

  drafts-bounded :
      (j : Json) (max_sub_issues : ℕ)
      → Ends (λ ds. length ds ≤ max_sub_issues) (drafts scrub j max_sub_issues)
  unfolding drafts
  drafts-bounded (array steps) max_sub_issues =
      elim (Bool-cases (ltb max_sub_issues (length (items_of steps)))) [
        | inl over ↦ rw over tt
        | inr within ↦ rw within (
            bind-Ends (λ ds. length ds ≡ length (items_of steps)) _
              (drafts_of scrub [] (items_of steps)) _ (length-drafts_of [] (items_of steps))
              (λ ds h. omega (
                arith,
                h,
                length-map (scrubbed scrub) ds,
                within_limit max_sub_issues (length (items_of steps)) within,
              )))
      ]
  drafts-bounded _ max_sub_issues = tt

  verdict_of-Ends :
      (obj : Dict Json) (max_sub_issues : ℕ) (answer : TriageAnswer)
      → Ends
          (λ v. (length v.sub_issues ≤ max_sub_issues) × Fits v.verdict (length v.sub_issues))
          (verdict_of scrub obj max_sub_issues answer)
  unfolding verdict_of
  verdict_of-Ends obj max_sub_issues answer =
      any-Ends _ (reason_at scrub obj "summary") _ (λ summary.
        any-Ends _ (reason_at scrub obj "fits_caps") _ (λ fits_caps.
          any-Ends _ (reason_at scrub obj "lands_fast") _ (λ lands_fast.
            any-Ends _ (reason_at scrub obj "needs_human") _ (λ needs_human.
              any-Ends _ (reason_at scrub obj "ignored_requests") _ (λ ignored_requests.
                bind-Ends _ _ (drafts scrub (value_at obj "sub_issues") max_sub_issues) _
                  (drafts-bounded (value_at obj "sub_issues") max_sub_issues)
                  (λ found bounded.
                    bind-Ends (λ _. Fits answer (length found)) _ (check_answer answer found) _
                      (check_answer-Ends answer found) (λ _ h. (bounded, h))))))))

  parent_verdict_of-Ends :
      (obj : Dict Json) (max_sub_issues : ℕ) (answer : ReviewAnswer)
      → Ends
          (λ v. (length v.sub_issues ≤ max_sub_issues) × FitsReview v.verdict (length v.sub_issues))
          (parent_verdict_of scrub obj max_sub_issues answer)
  unfolding parent_verdict_of
  parent_verdict_of-Ends obj max_sub_issues answer =
      any-Ends _ (reason_at scrub obj "summary") _ (λ summary.
        any-Ends _ (reason_at scrub obj "evidence") _ (λ evidence.
          any-Ends _ (reason_at scrub obj "ignored_requests") _ (λ ignored_requests.
            bind-Ends _ _ (drafts scrub (value_at obj "sub_issues") max_sub_issues) _
              (drafts-bounded (value_at obj "sub_issues") max_sub_issues)
              (λ found bounded.
                bind-Ends (λ _. FitsReview answer (length found)) _ (check_review answer found) _
                  (check_review-Ends answer found) (λ _ h. (bounded, h))))))

  answered-Ends :
      (obj : Dict Json) (max_sub_issues : ℕ)
      → Ends (Good max_sub_issues) (answered scrub obj max_sub_issues)
  unfolding answered
  answered-Ends obj max_sub_issues = elim (Option-cases (answer_of (value_at obj "verdict"))) [
    | inl e ↦ rw (e, answered) tt
    | inr (answer, e) ↦ rw (e, answered) (verdict_of-Ends obj max_sub_issues answer)
  ]

  parse_verdict-Ends :
      (raw : Json) (max_sub_issues : ℕ)
      → Ends (Good max_sub_issues) (parse_verdict scrub raw max_sub_issues)
  unfolding parse_verdict
  parse_verdict-Ends null max_sub_issues = tt
  parse_verdict-Ends raw max_sub_issues =
      any-Ends (Good max_sub_issues) (fields scrub raw verdict_fields "the verdict")
        (λ obj. answered scrub obj max_sub_issues) (λ obj. answered-Ends obj max_sub_issues)

  reviewed-Ends :
      (obj : Dict Json) (max_sub_issues : ℕ)
      → Ends (GoodReview max_sub_issues) (reviewed scrub obj max_sub_issues)
  unfolding reviewed
  reviewed-Ends obj max_sub_issues = elim (Option-cases (review_of (value_at obj "verdict"))) [
    | inl e ↦ rw (e, reviewed) tt
    | inr (answer, e) ↦ rw (e, reviewed) (parent_verdict_of-Ends obj max_sub_issues answer)
  ]

  parse_parent_review-Ends :
      (raw : Json) (max_sub_issues : ℕ)
      → Ends (GoodReview max_sub_issues) (parse_parent_review scrub raw max_sub_issues)
  unfolding parse_parent_review
  parse_parent_review-Ends null max_sub_issues = tt
  parse_parent_review-Ends raw max_sub_issues =
      any-Ends (GoodReview max_sub_issues) (fields scrub raw review_fields "the verdict")
        (λ obj. reviewed scrub obj max_sub_issues) (λ obj. reviewed-Ends obj max_sub_issues)

  -- A `split` that is accepted has at least one draft and a `fits` has none, and there are never more
  -- drafts than may be filed, whatever the session printed and whatever the scrubber does.
  pub parse_verdict-Fits :
      (raw : Json) (max_sub_issues : ℕ) (v : TriageVerdict)
      → parse_verdict scrub raw max_sub_issues ≡ parsed v
      → (length v.sub_issues ≤ max_sub_issues) × Fits v.verdict (length v.sub_issues)
  parse_verdict-Fits raw max_sub_issues v h = rw h at (parse_verdict-Ends raw max_sub_issues)

  -- A `next` or a `gap` that is accepted has at least one draft and a `met` has none, and there are
  -- never more drafts than may be filed.
  pub parse_parent_review-FitsReview :
      (raw : Json) (max_sub_issues : ℕ) (v : ParentReviewVerdict)
      → parse_parent_review scrub raw max_sub_issues ≡ parsed v
      → (length v.sub_issues ≤ max_sub_issues) × FitsReview v.verdict (length v.sub_issues)
  parse_parent_review-FitsReview raw max_sub_issues v h =
      rw h at (parse_parent_review-Ends raw max_sub_issues)
