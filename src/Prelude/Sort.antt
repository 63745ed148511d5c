-- ===== src/Prelude/Sort.antt =====
-- `sorted(xs, key=…)` and `max(xs, key=…)`: a stable sort and the first of the greatest, for a
-- comparison `le` that compares the keys.
use mathlib.Core.Path.{◌≡◌, refl, sym, subst}
use mathlib.Core.Logic.{inl, inr}
use mathlib.Core.Bool.{Bool, true, false}
use mathlib.Core.List.{List, [], ◌∷◌, Perm}
use mathlib.Core.List.Perm
use issuebot.Prelude.Tests.{if◌then◌else◌, Bool-cases}
use issuebot.Prelude.Lists.{All, In, All-In, All-map}

-- What the comparison of keys has to be: any order of Python's tuples, numbers and dates is.
pub record IsOrder {A : Type 0} (le : A → A → Bool) : Type 0 where
  pub total : (x y : A) → le x y ≡ false → le y x ≡ true
  pub trans : (x y z : A) → le x y ≡ true → le y z ≡ true → le x z ≡ true

module _ {A : Type 0} (le : A → A → Bool) where
  unfoldable pub insert : A → List A → List A
  insert x [] = x ∷ []
  insert x (y ∷ ys) = if le x y then x ∷ y ∷ ys else y ∷ insert x ys

  unfoldable pub sort : List A → List A
  unfolding insert
  sort [] = []
  sort (x ∷ xs) = insert x (sort xs)

  -- Python's `max` keeps the first of the greatest.
  unfoldable pub max_by : A → List A → A
  max_by x [] = x
  max_by x (y ∷ ys) = max_by (if le y x then x else y) ys

  abbrev pub Below : A → List A → Type 0
  Below x = All (λ y. le x y ≡ true)

  abbrev pub IsSorted : List A → Type 0
  IsSorted [] = Unit
  IsSorted (x ∷ xs) = Below x xs × IsSorted xs

module _ {A : Type 0} (P : A → Type 0) where
  pub All-insert :
      (le : A → A → Bool) (x : A) (ys : List A) → P x → All P ys → All P (insert le x ys)
  unfolding insert
  All-insert le x [] p q = (p, tt)
  All-insert le x (y ∷ ys) p q = elim (Bool-cases (le x y)) [
    | inl e ↦ rw e (p, q)
    | inr e ↦ rw e (q.0, All-insert le x ys p q.1)
  ]

  pub All-sort : (le : A → A → Bool) (xs : List A) → All P xs → All P (sort le xs)
  unfolding sort
  All-sort le [] h = tt
  All-sort le (x ∷ xs) h = All-insert le x (sort le xs) h.0 (All-sort le xs h.1)

  pub All-uninsert :
      (le : A → A → Bool) (x : A) (ys : List A) → All P (insert le x ys) → P x × All P ys
  unfolding insert
  All-uninsert le x [] h = h
  All-uninsert le x (y ∷ ys) h = elim (Bool-cases (le x y)) [
    | inl e ↦ (rw (e, insert) at h)
    | inr e ↦
        let h' = rw (e, insert) at h in let r = All-uninsert le x ys h'.1 in (r.0, (h'.0, r.1))
  ]

  pub All-unsort : (le : A → A → Bool) (xs : List A) → All P (sort le xs) → All P xs
  unfolding sort
  All-unsort le [] h = tt
  All-unsort le (x ∷ xs) h = let r = All-uninsert le x (sort le xs) h in (r.0, All-unsort le xs r.1)

module _ {A : Type 0} (le : A → A → Bool) where
  insert-perm : (x : A) (ys : List A) → Perm (insert le x ys) (x ∷ ys)
  unfolding insert
  insert-perm x [] = Perm.refl (x ∷ [])
  insert-perm x (y ∷ ys) = elim (Bool-cases (le x y)) [
    | inl e ↦ rw e (Perm.refl (x ∷ y ∷ ys))
    | inr e ↦ rw e (Perm.trans (Perm.cons y (insert-perm x ys)) (Perm.swap x y ys))
  ]

  pub sort-perm : (xs : List A) → Perm (sort le xs) xs
  unfolding sort
  sort-perm [] = Perm.refl []
  sort-perm (x ∷ xs) = Perm.trans (insert-perm x (sort le xs)) (Perm.cons x (sort-perm xs))

module _ {A : Type 0} {le : A → A → Bool} (o : IsOrder le) where
  Below-trans : (x y : A) (zs : List A) → le x y ≡ true → Below le y zs → Below le x zs
  Below-trans x y [] h b = tt
  Below-trans x y (z ∷ zs) h b = (o.trans x y z h b.0, Below-trans x y zs h b.1)

  insert-IsSorted : (x : A) (ys : List A) → IsSorted le ys → IsSorted le (insert le x ys)
  unfolding insert
  insert-IsSorted x [] s = (tt, tt)
  insert-IsSorted x (y ∷ ys) s = elim (Bool-cases (le x y)) [
    | inl e ↦ rw e ((e, Below-trans x y ys e s.0), s)
    | inr e ↦
        rw e (All-insert (λ z. le y z ≡ true) le x ys (o.total x y e) s.0, insert-IsSorted x ys s.1)
  ]

  pub sort-IsSorted : (xs : List A) → IsSorted le (sort le xs)
  unfolding sort
  sort-IsSorted [] = tt
  sort-IsSorted (x ∷ xs) = insert-IsSorted x (sort le xs) (sort-IsSorted xs)

  le_refl : (x : A) → le x x ≡ true
  le_refl x = elim (Bool-cases (le x x)) [ inl e ↦ e | inr e ↦ o.total x x e ]

  max_by_nil : (x : A) → max_by le x [] ≡ x
  unfolding max_by
  max_by_nil x = refl

  max_by_keep : (x y : A) (ys : List A) → le y x ≡ true → max_by le x (y ∷ ys) ≡ max_by le x ys
  unfolding max_by
  max_by_keep x y ys e = rw e

  max_by_take : (x y : A) (ys : List A) → le y x ≡ false → max_by le x (y ∷ ys) ≡ max_by le y ys
  unfolding max_by
  max_by_take x y ys e = rw e

  -- An item of the list that no item is greater than.
  abbrev pub IsGreatest : A → List A → Type 0
  IsGreatest m xs = In m xs × All (λ y. le y m ≡ true) xs

  -- `max` returns one of the items, and none of them is greater.
  pub max_by-IsGreatest : (x : A) (xs : List A) → IsGreatest (max_by le x xs) (x ∷ xs)
  max_by-IsGreatest x [] =
      subst (λ m. IsGreatest m (x ∷ [])) (sym (max_by_nil x)) (inl refl, (le_refl x, tt))
  max_by-IsGreatest x (y ∷ ys) = elim (Bool-cases (le y x)) [
    | inl e ↦
        let (found, rest) = max_by-IsGreatest x ys in
        subst (λ m. IsGreatest m (x ∷ y ∷ ys)) (sym (max_by_keep x y ys e))
          (
            elim found [ inl p ↦ inl p | inr p ↦ inr (inr p) ],
            (rest.0, (o.trans y x _ e rest.0, rest.1)),
          )
    | inr e ↦
        let (found, rest) = max_by-IsGreatest y ys in
        subst (λ m. IsGreatest m (x ∷ y ∷ ys)) (sym (max_by_take x y ys e))
          (inr found, (o.trans x y _ (o.total y x e) rest.0, rest))
  ]

module _ {A : Type 0} where
  All-self : (xs : List A) → All (λ x. In x xs) xs
  All-self [] = tt
  All-self (x ∷ xs) = (inl refl, All-map _ _ xs (λ y i. inr i) (All-self xs))

  -- Sorting adds no item.
  pub In-sort : (le : A → A → Bool) (xs : List A) (x : A) → In x (sort le xs) → In x xs
  In-sort le xs x i =
      All-In (λ y. In y xs) x (sort le xs) (All-sort (λ y. In y xs) le xs (All-self xs)) i
