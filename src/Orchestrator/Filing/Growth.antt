-- ===== src/Orchestrator/Filing/Growth.antt =====
-- How the list of a parent's sub-issues may grow while drafts are filed.
use issuebot.Prelude.{
  String, List, [], ◌∷◌, ◌++◌, Bool, true, false, ◌||◌, any, str_eq, str_eq_iff, ◌≡◌, refl, ◌⊎◌,
  inl, inr, arith,
}
use issuebot.GitHub.Models.{SubIssue}
use issuebot.Agent.Verdict.{SubIssueDraft}
use issuebot.Orchestrator.Triage.{key}

-- Some sub-issue has the key; some draft has it.
unfoldable pub has_key : String → List SubIssue → Bool
has_key k cs = any (λ c. str_eq (key c.title) k) cs

unfoldable pub drafted : String → List SubIssueDraft → Bool
drafted k ds = any (λ d. str_eq (key d.title) k) ds

-- No two sub-issues have one key.
abbrev pub KeysDistinct : List SubIssue → Type 0
KeysDistinct [] = Unit
KeysDistinct (c ∷ cs) = (has_key (key c.title) cs ≡ false) × KeysDistinct cs

-- From `before` to `after` no sub-issue is lost, none appears but for a draft, and none appears twice.
pub record Grows (ds : List SubIssueDraft) (before after : List SubIssue) : Type 0 where
  pub distinct : KeysDistinct before → KeysDistinct after
  pub only :
      (k : String) → has_key k after ≡ true → (has_key k before ≡ true) ⊎ (drafted k ds ≡ true)
  pub keeps : (k : String) → has_key k before ≡ true → has_key k after ≡ true

pub has_key-append :
    (k : String) (b : List SubIssue) (c : SubIssue)
    → has_key k (b ++ c ∷ []) ≡ (has_key k b || str_eq (key c.title) k)
unfolding has_key any
has_key-append k [] c = ground arith
has_key-append k (x ∷ b) c = ground (arith, has_key-append k b c)

append-KeysDistinct :
    (b : List SubIssue) (c : SubIssue)
    → has_key (key c.title) b ≡ false
    → KeysDistinct b
    → KeysDistinct (b ++ c ∷ [])
unfolding has_key any
append-KeysDistinct [] c h v = (refl, tt)
append-KeysDistinct (x ∷ b) c h v = ground (
  arith,
  append-KeysDistinct b c,
  has_key-append (key x.title) b c,
  str_eq_iff (key x.title) (key c.title),
  str_eq_iff (key c.title) (key x.title),
)

pub Grows-refl : (ds : List SubIssueDraft) (b : List SubIssue) → Grows ds b b
Grows-refl ds b = record { distinct = λ v. v; only = λ k h. inl h; keeps = λ k h. h }

pub Grows-trans :
    (d : SubIssueDraft) (ds : List SubIssueDraft) {b c e : List SubIssue}
    → Grows (d ∷ []) b c
    → Grows ds c e
    → Grows (d ∷ ds) b e
unfolding drafted any
Grows-trans d ds g h = record {
  distinct = λ v. h.distinct (g.distinct v);
  only = λ k i. elim (h.only k i) [
    | inl j ↦ elim (g.only k j) [ inl m ↦ inl m | inr m ↦ inr (ground arith) ]
    | inr j ↦ inr (ground arith)
  ];
  keeps = λ k i. h.keeps k (g.keeps k i);
}

pub Grows-again :
    (ds : List SubIssueDraft) {b c e : List SubIssue} → Grows ds b c → Grows ds c e → Grows ds b e
Grows-again ds g h = record {
  distinct = λ v. h.distinct (g.distinct v);
  only = λ k i. elim (h.only k i) [ inl j ↦ g.only k j | inr j ↦ inr j ];
  keeps = λ k i. h.keeps k (g.keeps k i);
}

-- A new sub-issue under the title of a draft that had none.
pub Grows-snoc :
    (d : SubIssueDraft) (b : List SubIssue) (c : SubIssue)
    → has_key (key d.title) b ≡ false
    → c.title ≡ d.title
    → Grows (d ∷ []) b (b ++ c ∷ [])
unfolding drafted any
Grows-snoc d b c h e = record {
  distinct = append-KeysDistinct b c (rw e h);
  only = λ k i. ground (arith, has_key-append k b c, e);
  keeps = λ k i. ground (arith, has_key-append k b c);
}
