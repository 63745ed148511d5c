-- ===== src/Orchestrator/Admission/Ledger/Chain.antt =====
-- The failure chain of orchestrator/admission.py: what ends it, and what cannot.
use issuebot.Prelude.{
  ℕ, ◌+◌, ◌≤◌, String, Option, none, some, List, [], ◌∷◌, ◌++◌, ◌≡◌, refl, Bool, true, false, inl,
  inr, Bool-cases, arith, if◌then◌else◌, str_eq,
}
use issuebot.Prelude.Float.{Float}
use issuebot.Prelude.Dict.{lookup, remove, lookup-append}
use issuebot.Orchestrator.Admission.Ledger.{
  IssueLedger, Ledger, trim_entries, put, write, get, dispatched, spent, failed, cleared, observed,
  refused, mark_escaped, escalate, forget, Call, step, run, dispatched_at, spent_on, failed_on,
  cleared_on, observed_on, refused_on, mark_escaped_on, escalate_on, forget_on,
}
use issuebot.Orchestrator.Admission.Ledger.Reads.{
  subject, or_empty, effect, get-or_empty, lookup-step,
}

module _ {F : Type 0} where
  -- The two calls that may end the chain of the issue `j`.
  unfoldable pub ends_chain : String → Call F → Bool
  ends_chain j (cleared_on i) = str_eq i j
  ends_chain j (forget_on i) = str_eq i j
  ends_chain j _ = false

  -- 1 for a failed run of `j`.
  unfoldable pub failure_of : String → Call F → ℕ
  failure_of j (failed_on i) = if str_eq i j then 1 else 0
  failure_of j _ = 0

  -- How many runs of `j` failed during the calls.
  unfoldable pub count_failed : String → List (Call F) → ℕ
  count_failed j [] = 0
  count_failed j (c ∷ cs) = failure_of j c + count_failed j cs

  -- None of the calls ends the chain of `j`.
  abbrev pub KeepsChain : String → List (Call F) → Type 0
  KeepsChain j [] = Unit
  KeepsChain j (c ∷ cs) = (ends_chain j c ≡ false) × KeepsChain j cs

module _ {F : Type 0} ⦃f : Float F⦄ where
  failures-effect_other :
      (j : String) (c : Call F) → str_eq (subject c) j ≡ false → failure_of j c ≡ 0
  unfolding failure_of subject
  failures-effect_other j (failed_on i) s = rw s
  failures-effect_other j _ s = refl

  -- One call lowers no chain but the one it ends.
  failures-effect :
      (j : String) (c : Call F) (o : Option (IssueLedger F))
      → str_eq (subject c) j ≡ true
      → ends_chain j c ≡ false
      → failure_of j c + (or_empty o).failures ≤ (or_empty (effect c o)).failures
  unfolding ends_chain failure_of effect subject
  failures-effect j (dispatched_at i at) o s k = omega arith
  failures-effect j (spent_on i turns cost) o s k = omega arith
  failures-effect j (failed_on i) o s k = ground arith
  failures-effect j (cleared_on i) o s k = cc
  failures-effect j (observed_on i seen m) o s k = ground arith
  failures-effect j (refused_on i reason) none s k = omega arith
  failures-effect j (refused_on i reason) (some e) s k = omega arith
  failures-effect j (mark_escaped_on i) none s k = omega arith
  failures-effect j (mark_escaped_on i) (some e) s k = omega arith
  failures-effect j (escalate_on i) none s k = omega arith
  failures-effect j (escalate_on i) (some e) s k = omega arith
  failures-effect j (forget_on i) o s k = cc

  failures-step :
      (l : Ledger F) (c : Call F) (j : String)
      → lookup (step l c).evicted j ≡ none
      → ends_chain j c ≡ false
      → failure_of j c + (get l j).failures ≤ (get (step l c) j).failures
  failures-step l c j h k = elim (Bool-cases (str_eq (subject c) j)) [
    | inl s ↦
        rw (get-or_empty l j, get-or_empty (step l c) j, lookup-step l c j h, s)
          (failures-effect j c (lookup l.entries j) s k)
    | inr s ↦
        rw
          (
            get-or_empty l j,
            get-or_empty (step l c) j,
            lookup-step l c j h,
            s,
            failures-effect_other j c s,
          )
          (omega arith)
  ]

  put-evicted :
      (l : Ledger F) (i j : String) (e : IssueLedger F)
      → lookup (put l i e).evicted j ≡ none
      → lookup l.evicted j ≡ none
  unfolding put
  put-evicted l i j e h =
      let dropped = (trim_entries l.limit (remove l.entries i ++ (i, e) ∷ [])).1 in
      ground (arith, lookup-append l.evicted dropped j)

  -- What has been evicted stays on the record.
  step-evicted :
      (l : Ledger F) (c : Call F) (j : String)
      → lookup (step l c).evicted j ≡ none
      → lookup l.evicted j ≡ none
  unfolding step
  step-evicted l (dispatched_at i at) j h = unfold dispatched in grind (arith, put-evicted)
  step-evicted l (spent_on i turns cost) j h = unfold spent in grind (arith, put-evicted)
  step-evicted l (failed_on i) j h = unfold failed in grind (arith, put-evicted)
  step-evicted l (cleared_on i) j h = unfold cleared in grind (arith, put-evicted)
  step-evicted l (observed_on i seen m) j h = unfold observed in grind (arith, put-evicted)
  step-evicted l (refused_on i reason) j h = unfold refused write in ground arith
  step-evicted l (mark_escaped_on i) j h = unfold mark_escaped write in ground arith
  step-evicted l (escalate_on i) j h = unfold escalate write in ground arith
  step-evicted l (forget_on i) j h = unfold forget in h

  run-evicted :
      (l : Ledger F) (cs : List (Call F)) (j : String)
      → lookup (run l cs).evicted j ≡ none
      → lookup l.evicted j ≡ none
  unfolding run
  run-evicted l [] j h = h
  run-evicted l (c ∷ cs) j h = step-evicted l c j (run-evicted (step l c) cs j h)

  -- Over any calls of which none ends the chain of `j`, every failed run of `j` is still counted at
  -- the end, on top of the chain at the start, as long as the cap has not evicted `j`.
  pub failures-run :
      (l : Ledger F) (cs : List (Call F)) (j : String)
      → lookup (run l cs).evicted j ≡ none
      → KeepsChain j cs
      → count_failed j cs + (get l j).failures ≤ (get (run l cs) j).failures
  unfolding run count_failed
  failures-run l [] j h k = omega arith
  failures-run l (c ∷ cs) j h k = omega (
    arith,
    failures-step l c j (run-evicted (step l c) cs j h) k.0,
    failures-run (step l c) cs j h k.1,
  )
