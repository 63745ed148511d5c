-- ===== src/Orchestrator/Worker/Moves.antt =====
-- The invariant of the two tables of orchestrator/orchestrator.py, and how it goes through a method.
use issuebot.Prelude.{
  ℕ, suc, ◌≤◌, ◌<◌, String, none, some, [], ◌∷◌, Bool, true, false, ◌≡◌, refl, arith, ◌⊎◌, length,
  if◌then◌else◌, str_eq_iff, str_eq_refl,
}
use mathlib.Core.Path.{subst⁻¹}
use issuebot.Prelude.Dict.{Dict, lookup, remove, set, lookup-set, lookup-remove}
use issuebot.GitHub.Adapter.{Result, ok, err, Exec, continue, ◌>>=◌, ◌>>◌}
use issuebot.Orchestrator.Runtime.{RunningEntry, RetryEntry}
use issuebot.Orchestrator.Worker.{Worker}
use issuebot.Orchestrator.Worker.Effects.{Orch, inspect}
use issuebot.Orchestrator.Worker.Tables.{Tables, tables, KeepsTables}

module _ {V : Type 0} where
  pub length-set : (d : Dict V) (k : String) (v : V) → length (set d k v) ≤ suc (length d)
  unfolding set
  length-set [] k v = omega arith
  length-set ((j, w) ∷ d) k v = ground (arith, length-set d k v)

  pub length-remove : (d : Dict V) (k : String) → length (remove d k) ≤ length d
  unfolding remove
  length-remove [] k = omega arith
  length-remove ((j, w) ∷ d) k = ground (arith, length-remove d k)

-- No issue both runs and waits.
abbrev pub IsApart : Tables → Type 0
IsApart t = (id : String) → (lookup t.0 id ≡ none) ⊎ (lookup t.1 id ≡ none)

-- A run is under the identifier of its issue.
abbrev pub IsKeyed : Tables → Type 0
IsKeyed t = (id : String) (entry : RunningEntry) → lookup t.0 id ≡ some entry → entry.issue.id ≡ id

pub record IsValid (limit : ℕ) (t : Tables) : Type 0 where
  pub apart : IsApart t
  pub keyed : IsKeyed t
  pub bounded : length t.0 ≤ limit

-- And one more run fits.
abbrev pub HasRoom : ℕ → Tables → Type 0
HasRoom limit t = IsValid limit t × (length t.0 < limit)

-- And that issue does not run.
abbrev pub IsFree : ℕ → String → Tables → Type 0
IsFree limit id t = IsValid limit t × (lookup t.0 id ≡ none)

module _ (limit : ℕ) (t : Tables) where
  pub set_running-IsValid :
      (id : String) (entry : RunningEntry)
      → entry.issue.id ≡ id
      → HasRoom limit t
      → IsValid limit (set t.0 id entry, remove t.1 id)
  set_running-IsValid id entry e (v, room) = record {
    apart = λ j. ground (arith, v.apart j, lookup-set t.0 id j entry, lookup-remove t.1 id j);
    keyed =
        λ j other h. ground (arith, v.keyed j other, lookup-set t.0 id j entry, str_eq_iff id j);
    bounded = omega (arith, length-set t.0 id entry, room);
  }

  pub set_retry-IsValid :
      (id : String) (entry : RetryEntry) → IsFree limit id t → IsValid limit (t.0, set t.1 id entry)
  set_retry-IsValid id entry (v, free) = record {
    apart = λ j. ground (arith, v.apart j, lookup-set t.1 id j entry, str_eq_iff id j);
    keyed = v.keyed;
    bounded = v.bounded;
  }

  pub remove_retry-IsValid : (id : String) → IsValid limit t → IsValid limit (t.0, remove t.1 id)
  remove_retry-IsValid id v = record {
    apart = λ j. ground (arith, v.apart j, lookup-remove t.1 id j);
    keyed = v.keyed;
    bounded = v.bounded;
  }

  pub remove_running-IsValid :
      (id : String) → IsValid limit t → IsFree limit id (remove t.0 id, t.1)
  remove_running-IsValid id v = (
    record {
      apart = λ j. ground (arith, v.apart j, lookup-remove t.0 id j);
      keyed = λ j other h. ground (arith, v.keyed j other, lookup-remove t.0 id j);
      bounded = omega (arith, length-remove t.0 id, v.bounded);
    },
    rw (lookup-remove t.0 id id, str_eq_refl id) refl,
  )

module _ {F S G : Type 0} where
  -- From tables that satisfy `P` it returns or raises with tables that satisfy `Q`.
  abbrev pub Moves : (P Q : Tables → Type 0) {A : Type 0} → Exec (Orch F S G) A → Type 0
  Moves P Q m = (u : Orch F S G) → P (tables u) → Q (tables (m u).1)

  pub keeps-Moves :
      (P Q : Tables → Type 0) {A : Type 0} (m : Exec (Orch F S G) A)
      → KeepsTables m
      → ((t : Tables) → P t → Q t)
      → Moves P Q m
  keeps-Moves P Q m h k u p = subst⁻¹ Q (h u) (k (tables u) p)

  pub continue-Moves :
      (P Q : Tables → Type 0) {A B : Type 0} (r : Result A) (f : A → Exec (Orch F S G) B)
      (u : Orch F S G)
      → ((t : Tables) → P t → Q t)
      → ((x : A) → Moves P Q (f x))
      → P (tables u)
      → Q (tables (continue r f u).1)
  continue-Moves P Q (ok x) f u h k p = k x u p
  continue-Moves P Q (err _) f u h k p = h (tables u) p

  pub bind-Moves :
      (P R Q : Tables → Type 0) {A B : Type 0} (m : Exec (Orch F S G) A)
      (f : A → Exec (Orch F S G) B)
      → ((t : Tables) → R t → Q t)
      → Moves P R m
      → ((x : A) → Moves R Q (f x))
      → Moves P Q (m >>= f)
  bind-Moves P R Q m f h j k u p = continue-Moves R Q (m u).0 f (m u).1 h k (j u p)

  -- After a part that keeps the tables.
  pub after-Moves :
      (P Q : Tables → Type 0) {A B : Type 0} (m : Exec (Orch F S G) A) (f : A → Exec (Orch F S G) B)
      → ((t : Tables) → P t → Q t)
      → KeepsTables m
      → ((x : A) → Moves P Q (f x))
      → Moves P Q (m >>= f)
  after-Moves P Q m f h j k = bind-Moves P P Q m f h (keeps-Moves P P m j (λ t p. p)) k

  -- And before one.
  pub before-Moves :
      (P Q : Tables → Type 0) {A B : Type 0} (m : Exec (Orch F S G) A) (n : Exec (Orch F S G) B)
      → Moves P Q m
      → KeepsTables n
      → Moves P Q (m >> n)
  before-Moves P Q m n h k =
      bind-Moves P Q Q m (λ _. n) (λ t q. q) h (λ _. keeps-Moves Q Q n k (λ t q. q))

  -- What follows a look at the worker starts from the tables that it has seen.
  pub inspect-Moves :
      (P Q : Tables → Type 0) {A : Type 0} (k : Worker F → Exec (Orch F S G) A)
      → ((w : Worker F)
          → P (w.running, w.retries)
          → (R : Tables → Type 0) × R (w.running, w.retries) × Moves R Q (k w))
      → Moves P Q (inspect >>= k)
  unfolding inspect
  inspect-Moves P Q k h u p = let (R, r, m) = h u.0 p in m u r

  pub if-Moves :
      (P Q : Tables → Type 0) {A : Type 0} (b : Bool) (m n : Exec (Orch F S G) A)
      → Moves P Q m
      → Moves P Q n
      → Moves P Q (if b then m else n)
  if-Moves P Q true m n h k = h
  if-Moves P Q false m n h k = k

  -- What follows a look at the worker, in the state that was looked at.
  pub look-Moves :
      (P Q : Tables → Type 0) {A : Type 0} (k : Worker F → Exec (Orch F S G) A)
      → ((u : Orch F S G) → P (tables u) → Q (tables (k u.0 u).1))
      → Moves P Q (inspect >>= k)
  unfolding inspect
  look-Moves P Q k h = h

  -- One branch of a test, where the test is known.
  pub branch-Moves :
      (Q : Tables → Type 0) {A : Type 0} (b : Bool) (m n : Exec (Orch F S G) A) (u : Orch F S G)
      → (b ≡ true → Q (tables (m u).1))
      → (b ≡ false → Q (tables (n u).1))
      → Q (tables ((if b then m else n) u).1)
  branch-Moves Q true m n u h k = h refl
  branch-Moves Q false m n u h k = k refl
