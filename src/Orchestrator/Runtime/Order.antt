-- ===== src/Orchestrator/Runtime/Order.antt =====
-- The order of candidates and the backoff of orchestrator/state.py.
use mathlib.Core.List.{Perm}
use native.Mathlib.Nat.{pow-suc}
use issuebot.Prelude.{
  ℕ, Option, none, some, ◌⊎◌, suc, ◌-◌, ◌*◌, ◌≤◌, min, List, [], ◌∷◌, All, All-map, true, ◌≡◌, refl,
  arith,
}
use issuebot.Prelude.Sort.{IsOrder, IsSorted, sort-IsSorted, sort-perm}
use issuebot.GitHub.Models.{Issue, StateLabel, todo, in_progress, review, rework, complete}
use issuebot.Orchestrator.Runtime.{rank, backoff_ms, before, sort_candidates}

-- The first state goes no later than the second: only an orphaned `in_progress` is before `rework`,
-- only these two before `todo`, and everything else is behind.
abbrev pub NoLater : Option StateLabel → Option StateLabel → Type 0
NoLater s (some in_progress) = s ≡ some in_progress
NoLater s (some rework) = (s ≡ some in_progress) ⊎ (s ≡ some rework)
NoLater s (some todo) = (s ≡ some in_progress) ⊎ (s ≡ some rework) ⊎ (s ≡ some todo)
NoLater s _ = Unit

-- By the state, then the oldest first, then the lower number.
abbrev pub NotAfter : Issue → Issue → Type 0
NotAfter a b =
    NoLater a.state b.state
    × (NoLater b.state a.state → a.created_at ≤ b.created_at)
    × (NoLater b.state a.state → a.created_at ≡ b.created_at → a.number ≤ b.number)

NoLater-rank : (s t : Option StateLabel) → rank s ≤ rank t → NoLater s t
unfolding rank
NoLater-rank s (some in_progress) h = ground arith
NoLater-rank s (some rework) h = ground arith
NoLater-rank s (some todo) h = ground arith
NoLater-rank s (some review) h = tt
NoLater-rank s (some complete) h = tt
NoLater-rank s none h = tt

rank-NoLater : (s t : Option StateLabel) → NoLater s t → rank s ≤ rank t
unfolding rank
rank-NoLater s (some in_progress) h = ground arith
rank-NoLater s (some rework) h = ground arith
rank-NoLater s (some todo) h = ground arith
rank-NoLater s (some review) h = ground arith
rank-NoLater s (some complete) h = ground arith
rank-NoLater s none h = ground arith

before_parts :
    (a b : Issue)
    → before a b ≡ true
    → (rank a.state ≤ rank b.state)
      × (rank b.state ≤ rank a.state → a.created_at ≤ b.created_at)
      × (rank b.state ≤ rank a.state → a.created_at ≡ b.created_at → a.number ≤ b.number)
unfolding before
before_parts a b h = (ground arith, λ r. ground arith, λ r c. ground arith)

before-IsOrder : IsOrder before
unfolding before
before-IsOrder = record { total = λ x y h. ground arith; trans = λ x y z h k. ground arith }

before-NotAfter : (a b : Issue) → before a b ≡ true → NotAfter a b
before-NotAfter a b h =
    let (earlier, older, lower) = before_parts a b h in
    (
      NoLater-rank a.state b.state earlier,
      λ r. older (rank-NoLater b.state a.state r),
      λ r c. lower (rank-NoLater b.state a.state r) c,
    )

-- Nobody comes after one that should be behind it.
abbrev pub IsOrdered : List Issue → Type 0
IsOrdered [] = Unit
IsOrdered (x ∷ xs) = All (NotAfter x) xs × IsOrdered xs

IsOrdered-of_sorted : (xs : List Issue) → IsSorted before xs → IsOrdered xs
IsOrdered-of_sorted [] s = tt
IsOrdered-of_sorted (x ∷ xs) s =
    (All-map _ _ xs (before-NotAfter x) s.0, IsOrdered-of_sorted xs s.1)

-- The candidates come out with nobody lost or added: an orphaned `in_progress` first, then `rework`,
-- then `todo`, then all others; the oldest first within a rank, and the lower number in a tie.
pub sort_candidates-IsOrdered :
    (issues : List Issue)
    → IsOrdered (sort_candidates issues) × Perm (sort_candidates issues) issues
unfolding sort_candidates
sort_candidates-IsOrdered issues =
    (IsOrdered-of_sorted _ (sort-IsSorted before-IsOrder issues), sort-perm before issues)

backoff_ms-suc :
    (k max_backoff : ℕ)
    → backoff_ms (suc (suc k)) max_backoff ≡ min (2 * backoff_ms (suc k) max_backoff) max_backoff
unfolding backoff_ms
backoff_ms-suc k max_backoff =
    let e : suc (suc k) - 1 ≡ suc k = omega arith in
    let e' : suc k - 1 ≡ k = omega arith in rw (e, e', pow-suc) (omega arith)

-- The wait before a retry never passes the maximum, starts at ten seconds unless that is less, for the
-- numbers 0 and 1 alike, and doubles with each attempt until it reaches the maximum.
pub backoff_ms-doubles :
    (k max_backoff : ℕ)
    → (backoff_ms k max_backoff ≤ max_backoff)
      × (backoff_ms 0 max_backoff ≡ min 10000 max_backoff)
      × (backoff_ms 1 max_backoff ≡ min 10000 max_backoff)
      × (backoff_ms (suc (suc k)) max_backoff
          ≡ min (2 * backoff_ms (suc k) max_backoff) max_backoff)
unfolding backoff_ms
backoff_ms-doubles k m = (omega arith, refl, refl, backoff_ms-suc k m)
