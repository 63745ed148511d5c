-- ===== src/Orchestrator/Admission/Ledger/Bounds.antt =====
-- The shape of the ledger of orchestrator/admission.py: bounded, with each identifier once.
use issuebot.Prelude.{
  ℕ, ◌≤◌, ◌<◌, String, none, some, List, [], ◌∷◌, ◌++◌, ◌≡◌, refl, ◌∙◌, Bool, true, false, inl, inr,
  Bool-cases, Option-cases, arith, length, if◌then◌else◌, str_eq, str_eq_iff, str_eq_refl,
}
use issuebot.Prelude.Float.{Float}
use issuebot.Prelude.Dict.{
  Dict, lookup, remove, IsDistinct, lookup-remove, remove-IsDistinct, set-IsDistinct,
  snoc-IsDistinct, length-remove-le, length-set_known,
}
use issuebot.Prelude.Sort.{insert, sort}
use issuebot.Orchestrator.Admission.Ledger.{
  IssueLedger, Ledger, trim_entries, put, write, init, dispatched, spent, failed, cleared, observed,
  refused, mark_escaped, escalate, forget, Call, step, run, reports, dispatched_at, spent_on,
  failed_on, cleared_on, observed_on, refused_on, mark_escaped_on, escalate_on, forget_on,
}

-- The ledger remembers at most `limit` issues, each under one entry.
pub record IsValid {F : Type 0} (l : Ledger F) : Type 0 where
  pub room : 0 < l.limit
  pub bounded : length l.entries ≤ l.limit
  pub distinct : IsDistinct l.entries

module _ {F : Type 0} where
  -- Trimming drops entries from the front, and no more than it has to.
  pub trim_entries-split :
      (limit : ℕ) (d : Dict (IssueLedger F))
      → (trim_entries limit d).1 ++ (trim_entries limit d).0 ≡ d
  unfolding trim_entries
  trim_entries-split limit [] = refl
  trim_entries-split limit (e ∷ d) = ground (arith, trim_entries-split limit d)

  pub length-trim_entries-le :
      (limit : ℕ) (d : Dict (IssueLedger F)) → length (trim_entries limit d).0 ≤ limit
  unfolding trim_entries
  length-trim_entries-le limit [] = omega arith
  length-trim_entries-le limit (e ∷ d) = ground (arith, length-trim_entries-le limit d)

  trim_entries-IsDistinct :
      (limit : ℕ) (d : Dict (IssueLedger F)) → IsDistinct d → IsDistinct (trim_entries limit d).0
  unfolding trim_entries
  trim_entries-IsDistinct limit [] h = tt
  trim_entries-IsDistinct limit (e ∷ d) h = ground (arith, trim_entries-IsDistinct limit d h.1)

  put-IsValid : (l : Ledger F) (i : String) (e : IssueLedger F) → IsValid l → IsValid (put l i e)
  unfolding put
  put-IsValid l i e v = record {
    room = v.room;
    bounded = length-trim_entries-le l.limit _;
    distinct = trim_entries-IsDistinct l.limit _ (
        snoc-IsDistinct (remove l.entries i) i e (rw (lookup-remove l.entries i i, str_eq_refl i))
          (remove-IsDistinct l.entries i v.distinct));
  }

  write-IsValid :
      (l : Ledger F) (i : String) (old e : IssueLedger F)
      → lookup l.entries i ≡ some old
      → IsValid l
      → IsValid (write l i e)
  unfolding write
  write-IsValid l i old e h v = record {
    room = v.room;
    bounded = omega (arith, length-set_known l.entries i old e h);
    distinct = set-IsDistinct l.entries i e v.distinct;
  }

  forget-IsValid : (l : Ledger F) (i : String) → IsValid l → IsValid (forget l i)
  unfolding forget
  forget-IsValid l i v = record {
    room = v.room;
    bounded = omega (arith, length-remove-le l.entries i);
    distinct = remove-IsDistinct l.entries i v.distinct;
  }

  lookup-insert :
      (le : (String × IssueLedger F) → (String × IssueLedger F) → Bool) (i j : String)
      (e : IssueLedger F) (d : Dict (IssueLedger F))
      → lookup d i ≡ none
      → lookup (insert le (i, e) d) j ≡ (if str_eq i j then some e else lookup d j)
  unfolding insert lookup
  lookup-insert le i j e [] h = refl
  lookup-insert le i j e ((k, x) ∷ d) h =
      ground (arith, lookup-insert le i j e d, str_eq_iff i j, str_eq_iff k j, str_eq_iff k i)

  insert-IsDistinct :
      (le : (String × IssueLedger F) → (String × IssueLedger F) → Bool) (i : String)
      (e : IssueLedger F) (d : Dict (IssueLedger F))
      → lookup d i ≡ none
      → IsDistinct d
      → IsDistinct (insert le (i, e) d)
  unfolding insert lookup
  insert-IsDistinct le i e [] h v = (refl, tt)
  insert-IsDistinct le i e ((k, x) ∷ d) h v =
      ground (
        arith,
        insert-IsDistinct le i e d,
        lookup-insert le i k e d,
        str_eq_iff k i,
        str_eq_iff i k,
      )

  -- Sorting the seed loses no entry.
  pub lookup-sort :
      (le : (String × IssueLedger F) → (String × IssueLedger F) → Bool) (d : Dict (IssueLedger F))
      → IsDistinct d
      → IsDistinct (sort le d) × ((j : String) → lookup (sort le d) j ≡ lookup d j)
  unfolding sort lookup
  lookup-sort le [] v = (tt, λ j. refl)
  lookup-sort le ((i, e) ∷ d) v =
      let (sorted, same) = lookup-sort le d v.1 in
      let fresh : lookup (sort le d) i ≡ none = same i ∙ v.0 in
      (
        insert-IsDistinct le i e (sort le d) fresh sorted,
        λ j. rw (lookup-insert le i j e (sort le d) fresh, same j) refl,
      )

  -- A new ledger is valid, whatever seed and limit it is built from.
  pub init-IsValid : (d : Dict (IssueLedger F)) (limit : ℕ) → IsDistinct d → IsValid (init d limit)
  unfolding init
  init-IsValid d limit h = record {
    room = omega arith;
    bounded = length-trim_entries-le _ _;
    distinct = trim_entries-IsDistinct _ _ (lookup-sort _ d h).0;
  }

module _ {F : Type 0} ⦃f : Float F⦄ where
  either-IsValid :
      (b : Bool) (x y : Ledger F × Bool)
      → IsValid x.0
      → IsValid y.0
      → IsValid (if b then x else y).0
  either-IsValid true x y p q = p
  either-IsValid false x y p q = q

  refused-IsValid : (l : Ledger F) (i reason : String) → IsValid l → IsValid (refused l i reason).0
  unfolding refused
  refused-IsValid l i reason v = elim (Option-cases (lookup l.entries i)) [
    | inl e ↦ rw (e, refused) v
    | inr (old, e) ↦
        rw (e, refused)
          (either-IsValid (reports old.reported_refusal reason) _ _ v (write-IsValid l i old _ e v))
  ]

  escalate-IsValid : (l : Ledger F) (i : String) → IsValid l → IsValid (escalate l i).0
  unfolding escalate
  escalate-IsValid l i v = elim (Option-cases (lookup l.entries i)) [
    | inl e ↦ rw (e, escalate) v
    | inr (old, e) ↦
        rw (e, escalate) (either-IsValid old.escalated _ _ v (write-IsValid l i old _ e v))
  ]

  mark_escaped-IsValid : (l : Ledger F) (i : String) → IsValid l → IsValid (mark_escaped l i)
  unfolding mark_escaped
  mark_escaped-IsValid l i v = elim (Option-cases (lookup l.entries i)) [
    | inl e ↦ rw (e, mark_escaped) v
    | inr (old, e) ↦ elim (Bool-cases old.escaped) [
      | inl t ↦ rw (e, t, mark_escaped) v
      | inr t ↦ rw (e, t, mark_escaped) (write-IsValid l i old _ e v)
    ]
  ]

  -- Every method keeps the ledger bounded and its identifiers distinct.
  pub step-IsValid : (l : Ledger F) (c : Call F) → IsValid l → IsValid (step l c)
  unfolding step dispatched spent failed
  step-IsValid l (dispatched_at i at) v = put-IsValid l i _ v
  step-IsValid l (spent_on i turns cost) v = put-IsValid l i _ v
  step-IsValid l (failed_on i) v = put-IsValid l i _ v
  step-IsValid l (cleared_on i) v = unfold cleared in grind (arith, put-IsValid)
  step-IsValid l (observed_on i seen m) v = unfold observed in grind (arith, put-IsValid)
  step-IsValid l (refused_on i reason) v = refused-IsValid l i reason v
  step-IsValid l (mark_escaped_on i) v = mark_escaped-IsValid l i v
  step-IsValid l (escalate_on i) v = escalate-IsValid l i v
  step-IsValid l (forget_on i) v = forget-IsValid l i v

  -- Any sequence of calls keeps a ledger within its limit, with one entry for each identifier.
  pub run-IsValid : (l : Ledger F) (cs : List (Call F)) → IsValid l → IsValid (run l cs)
  unfolding run
  run-IsValid l [] v = v
  run-IsValid l (c ∷ cs) v = run-IsValid (step l c) cs (step-IsValid l c v)
