-- ===== src/Orchestrator/Filing/Loop.antt =====
-- The loop that files a verdict's drafts, read as changes to the parent's list of sub-issues.
use issuebot.Prelude.{
  ℕ, suc, String, Option, none, some, List, [], ◌∷◌, ◌++◌, true, false, str_eq, str_eq_iff,
  str_eq_refl, any, Bool-cases, ◌≡◌, refl, ◌⊎◌, inl, inr, arith,
}
use issuebot.Prelude.Dict.{Dict, lookup, set, lookup-set}
use issuebot.GitHub.Models.{SubIssue}
use issuebot.GitHub.Adapter.{
  GitHubError, Exec, Result, ok, err, continue, pure, GitHubAdapter, ◌>>=◌, ◌>>◌, GrowsByCreation,
}
use issuebot.Agent.Verdict.{SubIssueDraft}
use issuebot.Orchestrator.Triage.{key, is_operator}
use issuebot.Orchestrator.Filing.{obtain, mark_step, file_steps}
use issuebot.Orchestrator.Filing.Growth.{
  has_key, drafted, Grows, Grows-refl, Grows-trans, Grows-snoc, has_key-append,
}

-- The table has the keys of the sub-issues, and no other.
unfoldable pub Knows : Dict SubIssue → List SubIssue → Type 0
Knows existing cs =
    (k : String) → has_key k cs ≡ elim (lookup existing k) [ none ↦ false | some _ ↦ true ]

Knows-set :
    (existing : Dict SubIssue) (before : List SubIssue) (d : SubIssueDraft) (child : SubIssue)
    → Knows existing before
    → child.title ≡ d.title
    → Knows (set existing (key d.title) child) (before ++ child ∷ [])
unfolding Knows
Knows-set existing before d child h e k =
    ground (arith, h k, has_key-append k before child, lookup-set existing (key d.title) k child, e)

module _ {W : Type 0} (children : ℕ → W → List SubIssue) (parent : ℕ) where
  -- All the keys of some drafts are there.
  abbrev pub Filed : List SubIssueDraft → Result (List SubIssue) → W → Type 0
  Filed ds (ok _) w = (k : String) → drafted k ds ≡ true → has_key k (children parent w) ≡ true
  Filed ds (err _) w = Unit

  abbrev pub Grown : List SubIssueDraft → List SubIssue → Result (List SubIssue) → W → Type 0
  Grown ds before r w = Grows ds before (children parent w) × Filed ds r w

module _ {W : Type 0} (a : GitHubAdapter W) (children : ℕ → W → List SubIssue) (parent : ℕ)
    (laws : GrowsByCreation a children parent) (text : ℕ → SubIssueDraft → String) where
  mark_step-children :
      (child : SubIssue) (d : SubIssueDraft) (w : W)
      → children parent (mark_step a parent text child d w).1 ≡ children parent w
  unfolding mark_step is_operator
  mark_step-children child d w =
      ground (arith, laws.edits_labels child.number (a.labels.operator_step ∷ []) [] w)

  -- A list of steps that grew as it may, and on a result the table that knows it and the draft's step.
  abbrev Obtained : SubIssueDraft → List SubIssue → Result (SubIssue × Dict SubIssue) → W → Type 0
  Obtained d before (ok r) w =
      Grows (d ∷ []) before (children parent w)
      × Knows r.1 (children parent w)
      × (has_key (key d.title) (children parent w) ≡ true)
  Obtained d before (err _) w = Grows (d ∷ []) before (children parent w)

  abbrev remembered : Dict SubIssue → SubIssueDraft → SubIssue → Exec W (SubIssue × Dict SubIssue)
  remembered existing d child = pure (child, set existing (key d.title) child)

  -- A draft without a child, after a creation that left `r` and `w`.
  created-Obtained :
      (existing : Dict SubIssue) (d : SubIssueDraft) (before : List SubIssue) (r : Result SubIssue)
      (w : W)
      → Knows existing before
      → has_key (key d.title) before ≡ false
      → ((child : SubIssue)
          → r ≡ ok child
          → (child.title ≡ d.title) × (children parent w ≡ before ++ child ∷ []))
      → ((e : GitHubError)
          → r ≡ err e
          → (children parent w ≡ before)
            ⊎ ((child : SubIssue) × (child.title ≡ d.title)
                × (children parent w ≡ before ++ child ∷ [])))
      → let (s, v) = continue r (remembered existing d) w in Obtained d before s v
  created-Obtained existing d before (ok child) w h fresh made failed =
      let (title, after) = made child refl in
      rw after (
        Grows-snoc d before child fresh title,
        Knows-set existing before d child h title,
        ground (arith, has_key-append (key d.title) before child, title, str_eq_refl (key d.title)),
      )
  created-Obtained existing d before (err e) w h fresh made failed = elim (failed e refl) [
    | inl same ↦ rw same (Grows-refl (d ∷ []) before)
    | inr (child, title, after) ↦ rw after (Grows-snoc d before child fresh title)
  ]

  existing-Obtained :
      (existing : Dict SubIssue) (step : ℕ) (d : SubIssueDraft) (w : W) (o : Option SubIssue)
      → lookup existing (key d.title) ≡ o
      → Knows existing (children parent w)
      → let (r, v) =
          (elim o as (λ _. Exec W (SubIssue × Dict SubIssue)) [
            | none ↦ a.create_sub_issue parent d.title (text step d) >>= remembered existing d
            | some child ↦ pure (child, existing)
          ])
            w in
        Obtained d (children parent w) r v
  unfolding Knows
  existing-Obtained existing step d w none e h =
      created-Obtained existing d (children parent w)
        (a.create_sub_issue parent d.title (text step d) w).0
        (a.create_sub_issue parent d.title (text step d) w).1 h (ground (arith, h (key d.title)))
        (laws.creates d.title (text step d) w) (laws.may_create d.title (text step d) w)
  existing-Obtained existing step d w (some c) e h =
      (Grows-refl (d ∷ []) (children parent w), h, ground (arith, h (key d.title)))

  obtain-Obtained :
      (existing : Dict SubIssue) (step : ℕ) (d : SubIssueDraft) (w : W)
      → Knows existing (children parent w)
      → let (r, v) = obtain a parent text existing step d w in Obtained d (children parent w) r v
  unfolding obtain
  obtain-Obtained existing step d w h =
      existing-Obtained existing step d w (lookup existing (key d.title)) refl h

  -- The steps that remain, once this one's child is there.
  rest-Grown :
      (before : List SubIssue) (d : SubIssueDraft) (ds : List SubIssueDraft) (child : SubIssue)
      (mid : W) (r : Result (List SubIssue)) (w : W)
      → Grows (d ∷ []) before (children parent mid)
      → has_key (key d.title) (children parent mid) ≡ true
      → Grown children parent ds (children parent mid) r w
      → let (s, v) = continue r (λ rest. pure (child ∷ rest)) w in
        Grown children parent (d ∷ ds) before s v
  unfolding drafted any
  rest-Grown before d ds child mid (ok rest) w g has (grown, filed) = (
    Grows-trans d ds g grown,
    λ k h. elim (Bool-cases (str_eq (key d.title) k)) [
      | inl same ↦ ground (arith, grown.keeps (key d.title) has, str_eq_iff (key d.title) k)
      | inr other ↦ filed k (ground arith)
    ],
  )
  rest-Grown before d ds child mid (err _) w g has (grown, _) = (Grows-trans d ds g grown, tt)

  -- The same, after the mark of the step.
  marked-Grown :
      (before : List SubIssue) (d : SubIssueDraft) (ds : List SubIssueDraft) (child : SubIssue)
      (mid : W) (later : Exec W (List SubIssue)) (r : Result (Unit {0})) (w : W)
      → Grows (d ∷ []) before (children parent mid)
      → has_key (key d.title) (children parent mid) ≡ true
      → children parent w ≡ children parent mid
      → Grown children parent ds (children parent w) (later w).0 (later w).1
      → let (s, v) = continue r (λ _. later >>= λ rest. pure (child ∷ rest)) w in
        Grown children parent (d ∷ ds) before s v
  marked-Grown before d ds child mid later (ok _) w g has same h =
      rest-Grown before d ds child w (later w).0 (later w).1 (rw same g) (rw same has) h
  marked-Grown before d ds child mid later (err _) w g has same h =
      (rw same (Grows-trans d ds g (Grows-refl ds (children parent mid))), tt)

  -- From the child that `obtain` left, whatever becomes of its mark and of the later steps.
  Obtained-Grown :
      (before : List SubIssue) (d : SubIssueDraft) (ds : List SubIssueDraft)
      (later : Dict SubIssue → Exec W (List SubIssue)) (r : Result (SubIssue × Dict SubIssue))
      (w : W)
      → Obtained d before r w
      → ((existing : Dict SubIssue) (v : W)
          → Knows existing (children parent v)
          → Grown children parent ds (children parent v) (later existing v).0 (later existing v).1)
      → let (s, v) =
          continue r
            (λ c. mark_step a parent text c.0 d >> (later c.1 >>= λ rest. pure (c.0 ∷ rest)))
            w in
        Grown children parent (d ∷ ds) before s v
  Obtained-Grown before d ds later (err _) w g h =
      (Grows-trans d ds g (Grows-refl ds (children parent w)), tt)
  Obtained-Grown before d ds later (ok (child, existing)) w (g, knows, has) h =
      let m = mark_step a parent text child d w in
      marked-Grown before d ds child w (later existing) m.0 m.1 g has (mark_step-children child d w)
        (h existing m.1 (rw (mark_step-children child d w) knows))

  pub file_steps-Grown :
      (step : ℕ) (existing : Dict SubIssue) (ds : List SubIssueDraft) (w : W)
      → Knows existing (children parent w)
      → let (r, v) = file_steps a parent text step existing ds w in
        Grown children parent ds (children parent w) r v
  unfolding file_steps drafted any
  file_steps-Grown step existing [] w h =
      (Grows-refl [] (children parent w), λ k e. absurd (ground arith))
  file_steps-Grown step existing (d ∷ ds) w h =
      let o = obtain a parent text existing step d w in
      Obtained-Grown (children parent w) d ds
        (λ existing'. file_steps a parent text (suc step) existing' ds) o.0 o.1
        (obtain-Obtained existing step d w h)
        (λ existing' v. file_steps-Grown (suc step) existing' ds v)
