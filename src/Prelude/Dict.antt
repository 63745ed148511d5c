-- ===== src/Prelude/Dict.antt =====
-- Python's `dict` with text keys: its entries in the order of insertion, which the program reads.
use mathlib.Core.Path.{◌≡◌, refl}
use mathlib.Core.Option.{Option, none, some}
use mathlib.Core.List.{List, [], ◌∷◌, ◌++◌, map}
use Prim.Native.Nat.{◌≤◌}
use Prim.Native.String.{String}
use native.Mathlib.Omega.{arith}
use issuebot.Prelude.Tests.{if◌then◌else◌, str_eq, str_eq_iff}
use issuebot.Prelude.Lists.{length}

abbrev pub Dict : Type 0 → Type 0
Dict V = List (String × V)

module _ {V : Type 0} where
  -- `d.get(k)`
  unfoldable pub lookup : Dict V → String → Option V
  lookup [] k = none
  lookup ((j, v) ∷ d) k = if str_eq j k then some v else lookup d k

  -- `d.pop(k, None)`
  unfoldable pub remove : Dict V → String → Dict V
  remove [] k = []
  remove ((j, v) ∷ d) k = let rest = remove d k in if str_eq j k then rest else (j, v) ∷ rest

  -- `d[k] = v`: a known key keeps its place, a new one goes to the end
  unfoldable pub set : Dict V → String → V → Dict V
  set [] k v = (k, v) ∷ []
  set ((j, w) ∷ d) k v = if str_eq j k then (j, v) ∷ d else (j, w) ∷ set d k v

  abbrev pub keys : Dict V → List String
  keys = map (λ e. e.0)

  -- No key twice, as in every `dict`.
  abbrev pub IsDistinct : Dict V → Type 0
  IsDistinct [] = Unit
  IsDistinct ((k, v) ∷ d) = (lookup d k ≡ none) × IsDistinct d

  pub lookup-remove :
      (d : Dict V) (k j : String)
      → lookup (remove d k) j ≡ (if str_eq k j then none else lookup d j)
  unfolding lookup remove
  lookup-remove [] k j = ground arith
  lookup-remove ((i, v) ∷ d) k j =
      ground (arith, lookup-remove d k j, str_eq_iff i k, str_eq_iff i j, str_eq_iff k j)

  pub lookup-set :
      (d : Dict V) (k j : String) (v : V)
      → lookup (set d k v) j ≡ (if str_eq k j then some v else lookup d j)
  unfolding lookup set
  lookup-set [] k j v = refl
  lookup-set ((i, w) ∷ d) k j v =
      ground (arith, lookup-set d k j v, str_eq_iff i k, str_eq_iff i j, str_eq_iff k j)

  pub lookup-append :
      (d e : Dict V) (k : String)
      → lookup (d ++ e) k ≡ elim (lookup d k) [ none ↦ lookup e k | some v ↦ some v ]
  unfolding lookup
  lookup-append [] e k = refl
  lookup-append ((j, v) ∷ d) e k = ground (arith, lookup-append d e k)

  pub remove-IsDistinct : (d : Dict V) (k : String) → IsDistinct d → IsDistinct (remove d k)
  unfolding remove
  remove-IsDistinct [] k h = tt
  remove-IsDistinct ((j, v) ∷ d) k h =
      ground (arith, remove-IsDistinct d k h.1, lookup-remove d k j)

  pub set-IsDistinct : (d : Dict V) (k : String) (v : V) → IsDistinct d → IsDistinct (set d k v)
  unfolding set lookup
  set-IsDistinct [] k v h = (refl, tt)
  set-IsDistinct ((j, w) ∷ d) k v h =
      ground (arith, set-IsDistinct d k v h.1, lookup-set d k j v, str_eq_iff j k, str_eq_iff k j)

  pub snoc-IsDistinct :
      (d : Dict V) (k : String) (v : V)
      → lookup d k ≡ none
      → IsDistinct d
      → IsDistinct (d ++ (k, v) ∷ [])
  unfolding lookup
  snoc-IsDistinct [] k v n h = (refl, tt)
  snoc-IsDistinct ((j, w) ∷ d) k v n h = ground (
    arith,
    snoc-IsDistinct d k v,
    lookup-append d ((k, v) ∷ []) j,
    str_eq_iff j k,
    str_eq_iff k j,
  )

  pub length-remove-le : (d : Dict V) (k : String) → length (remove d k) ≤ length d
  unfolding remove
  length-remove-le [] k = omega arith
  length-remove-le ((j, v) ∷ d) k = ground (arith, length-remove-le d k)

  pub keys-set_known :
      (d : Dict V) (k : String) (w v : V) → lookup d k ≡ some w → keys (set d k v) ≡ keys d
  unfolding lookup set
  keys-set_known [] k w v h = ground arith
  keys-set_known ((j, u) ∷ d) k w v h = ground (arith, keys-set_known d k w v)

  pub length-set_known :
      (d : Dict V) (k : String) (w v : V) → lookup d k ≡ some w → length (set d k v) ≡ length d
  unfolding lookup set
  length-set_known [] k w v h = ground arith
  length-set_known ((j, u) ∷ d) k w v h = ground (arith, length-set_known d k w v)
