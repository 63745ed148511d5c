-- ===== src/Orchestrator/Filing/Quiet.antt =====
-- What leaves a parent's sub-issues alone on the way to filing a verdict, and what a table of the
-- sub-issues by their titles knows.
use issuebot.Prelude.{
  ℕ, String, none, some, List, [], ◌∷◌, Bool, true, false, any, ◌||◌, ◌≡◌, refl, arith,
  if◌then◌else◌,
}
use issuebot.Prelude.Dict.{Dict, lookup, set, lookup-set}
use issuebot.GitHub.Models.{SubIssue}
use issuebot.GitHub.Adapter.{Exec, Result, ok, err, continue, pure, ◌>>◌}
use issuebot.Agent.Verdict.{SubIssueDraft}
use issuebot.Events.{Event}
use issuebot.Events.Bus.{EventBus}
use issuebot.Orchestrator.Triage.{key, by_key}
use issuebot.Orchestrator.Filing.Growth.{has_key, drafted, Grows-refl}
use issuebot.Orchestrator.Filing.Loop.{Knows, Filed, Grown}
use issuebot.Orchestrator.Filing.Apply.{announce}

by_key-known :
    (existing : Dict SubIssue) (cs : List SubIssue) (k : String)
    → elim (lookup (by_key existing cs) k) as (λ _. Bool) [ none ↦ false | some _ ↦ true ]
      ≡ (elim (lookup existing k) as (λ _. Bool) [ none ↦ false | some _ ↦ true ] || has_key k cs)
unfolding by_key has_key any
by_key-known existing [] k = ground arith
by_key-known existing (c ∷ cs) k =
    ground (
      arith,
      by_key-known (set existing (key c.title) c) cs k,
      lookup-set existing (key c.title) k c,
    )

pub by_key-Knows : (cs : List SubIssue) → Knows (by_key [] cs) cs
unfolding Knows lookup
by_key-Knows cs k = ground (arith, by_key-known [] cs k)

module _ {W : Type 0} (children : ℕ → W → List SubIssue) (parent : ℕ) where
  -- It returns or raises with the parent's sub-issues as they were.
  abbrev pub IsQuiet : {A : Type 0} → Exec W A → Type 0
  IsQuiet m = (w : W) → children parent (m w).1 ≡ children parent w

  pub continue-IsQuiet :
      {A B : Type 0} (r : Result A) (f : A → Exec W B) (w : W)
      → ((x : A) → IsQuiet (f x))
      → children parent (continue r f w).1 ≡ children parent w
  continue-IsQuiet (ok x) f w h = h x w
  continue-IsQuiet (err _) f w h = refl

  pub then-IsQuiet :
      {A : Type 0} (m : Exec W (Unit {0})) (n : Exec W A) → IsQuiet m → IsQuiet n → IsQuiet (m >> n)
  then-IsQuiet m n h i w = rw (continue-IsQuiet (m w).0 (λ _. n) (m w).1 (λ _. i)) (h w)

  pub unless-IsQuiet :
      (skip : Bool) (m : Exec W (Unit {0})) → IsQuiet m → IsQuiet (if skip then pure tt else m)
  unless-IsQuiet true m h w = refl
  unless-IsQuiet false m h w = h w

  pub any-Filed :
      (ds : List SubIssueDraft) (r : Result (List SubIssue)) (w : W)
      → ((k : String) → drafted k ds ≡ true → has_key k (children parent w) ≡ true)
      → Filed children parent ds r w
  any-Filed ds (ok _) w h = h
  any-Filed ds (err _) w h = tt

  pub quiet-Grown :
      (m : Exec W (List SubIssue)) (w : W)
      → IsQuiet m
      → Grown children parent [] (children parent w) (m w).0 (m w).1
  unfolding drafted any
  quiet-Grown m w h = (
    rw (h w) (Grows-refl [] (children parent w)),
    any-Filed [] (m w).0 (m w).1 (λ k e. absurd (ground arith)),
  )

  pub continue-Grown :
      (before : List SubIssue) (ds : List SubIssueDraft) (r : Result (List SubIssue)) (w : W)
      (f : List SubIssue → Exec W (List SubIssue))
      → Grown children parent ds before r w
      → ((filed : List SubIssue) → IsQuiet (f filed))
      → let (s, v) = continue r f w in Grown children parent ds before s v
  continue-Grown before ds (ok filed) w f (grown, has) h =
      (rw (h filed w) grown, any-Filed ds (f filed w).0 (f filed w).1 (rw (h filed w) has))
  continue-Grown before ds (err _) w f g h = g

-- The sub-issues of each parent are GitHub's alone: no sink changes them.
abbrev pub children_of : {H G : Type 0} → (ℕ → G → List SubIssue) → ℕ → H × G → List SubIssue
children_of listed parent w = listed parent w.1

pub announce-IsQuiet :
    {S G : Type 0} (listed : ℕ → G → List SubIssue) (parent : ℕ) (event : Event)
    → IsQuiet {W = (EventBus S × S) × G} (children_of listed) parent (announce event)
unfolding announce
announce-IsQuiet listed parent event w = refl
