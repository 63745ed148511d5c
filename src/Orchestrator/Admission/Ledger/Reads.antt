-- ===== src/Orchestrator/Admission/Ledger/Reads.antt =====
-- What can be read from the ledger of orchestrator/admission.py after a call: a map from
-- identifiers to entries, of which each call changes one, up to what the cap has evicted.
use issuebot.Prelude.{
  ℕ, ◌+◌, ◌<◌, String, Option, none, some, [], ◌∷◌, ◌++◌, ◌≡◌, refl, true, false, inl, inr,
  Option-cases, arith, if◌then◌else◌, str_eq, str_eq_iff, str_eq_refl, ◌&&◌, leb, ◌==◌, ◌-◌,
}
use issuebot.Prelude.Int.{max_zero}
use issuebot.Prelude.Float.{Float}
use issuebot.Prelude.Dict.{Dict, lookup, remove, lookup-remove, lookup-set, lookup-append}
use issuebot.Orchestrator.Admission.Ledger.{
  IssueLedger, Ledger, empty_ledger, seeded_chain, is_none, reports, trim_entries, put, get,
  dispatched, spent, failed, cleared, observed, refused, mark_escaped, escalate, forget, Call, step,
  dispatched_at, spent_on, failed_on, cleared_on, observed_on, refused_on, mark_escaped_on,
  escalate_on, forget_on,
}
use issuebot.Orchestrator.Admission.Ledger.Bounds.{trim_entries-split}

reports-eq : (o : Option String) (reason : String) → reports o reason ≡ true → o ≡ some reason
unfolding reports
reports-eq none reason h = ground arith
reports-eq (some last) reason h = ground (arith, str_eq_iff last reason)

module _ {F : Type 0} where
  -- The issue that a call is about.
  unfoldable pub subject : Call F → String
  subject (dispatched_at i at) = i
  subject (spent_on i turns cost) = i
  subject (failed_on i) = i
  subject (cleared_on i) = i
  subject (observed_on i seen max_attempts) = i
  subject (refused_on i reason) = i
  subject (mark_escaped_on i) = i
  subject (escalate_on i) = i
  subject (forget_on i) = i

  lookup-trim_entries :
      (limit : ℕ) (d : Dict (IssueLedger F)) (j : String)
      → lookup (trim_entries limit d).1 j ≡ none
      → lookup (trim_entries limit d).0 j ≡ lookup d j
  lookup-trim_entries limit d j h =
      let kept = (trim_entries limit d).0 in
      let dropped = (trim_entries limit d).1 in
      let e : lookup (dropped ++ kept) j ≡ lookup d j = rw (trim_entries-split limit d) refl in
      ground (arith, e, lookup-append dropped kept j)

  lookup-put :
      (l : Ledger F) (i j : String) (e : IssueLedger F)
      → lookup (put l i e).evicted j ≡ none
      → lookup (put l i e).entries j ≡ (if str_eq i j then some e else lookup l.entries j)
  unfolding put lookup
  lookup-put l i j e h =
      let d = remove l.entries i ++ (i, e) ∷ [] in
      let dropped = (trim_entries l.limit d).1 in
      ground (
        arith,
        lookup-append l.evicted dropped j,
        lookup-trim_entries l.limit d j,
        lookup-append (remove l.entries i) ((i, e) ∷ []) j,
        lookup-remove l.entries i j,
      )

  -- The entry that was just written stays: the cap is at least 1 and drops from the front.
  trim-last :
      (limit : ℕ) (d : Dict (IssueLedger F)) (i : String) (e : IssueLedger F)
      → 0 < limit
      → lookup d i ≡ none
      → lookup (trim_entries limit (d ++ (i, e) ∷ [])).0 i ≡ some e
  unfolding trim_entries lookup
  trim-last limit [] i e r h = ground (arith, str_eq_refl i)
  trim-last limit ((k, x) ∷ d) i e r h =
      ground (arith, trim-last limit d i e r, lookup-append d ((i, e) ∷ []) i, str_eq_refl i)

  pub lookup-put_self :
      (l : Ledger F) (i : String) (e : IssueLedger F)
      → 0 < l.limit
      → lookup (put l i e).entries i ≡ some e
  unfolding put
  lookup-put_self l i e r =
      trim-last l.limit (remove l.entries i) i e r (rw (lookup-remove l.entries i i, str_eq_refl i))

module _ {F : Type 0} ⦃f : Float F⦄ where
  abbrev pub or_empty : Option (IssueLedger F) → IssueLedger F
  or_empty none = empty_ledger
  or_empty (some e) = e

  -- What a call makes of its issue's entry, whatever the other issues' entries are.
  unfoldable pub effect : Call F → Option (IssueLedger F) → Option (IssueLedger F)
  unfolding is_none
  effect (dispatched_at i at) o =
      let e = or_empty o in
      some (record e {
        runs = e.runs + 1;
        last_run_at = some at;
        reported_refusal = none;
        escalated = false;
        escaped = false;
      })
  effect (spent_on i turns cost) o =
      let e = or_empty o in
      some (record e {
        turns = e.turns + max_zero turns;
        cost_usd = f.round (f.add e.cost_usd (f.maximum cost f.zero_f)) 6;
      })
  effect (failed_on i) o = let e = or_empty o in some (record e { failures = e.failures + 1 })
  effect (cleared_on i) o =
      let e = or_empty o in
      if e.failures == 0 && is_none e.reported_refusal
      then o
      else some (record e { failures = 0; reported_refusal = none })
  effect (observed_on i seen m) o =
      let e = or_empty o in
      if leb (seeded_chain (seen - 1) m) e.failures
      then o
      else some (record e { failures = seeded_chain (seen - 1) m })
  effect (refused_on i reason) none = none
  effect (refused_on i reason) (some e) = some (record e { reported_refusal = some reason })
  effect (mark_escaped_on i) none = none
  effect (mark_escaped_on i) (some e) = some (record e { escaped = true })
  effect (escalate_on i) none = none
  effect (escalate_on i) (some e) = some (record e { escalated = true })
  effect (forget_on i) o = none

  pub get-or_empty : (l : Ledger F) (i : String) → get l i ≡ or_empty (lookup l.entries i)
  unfolding get
  get-or_empty l i = ground arith

  lookup-refused :
      (l : Ledger F) (i reason j : String)
      → lookup (refused l i reason).0.entries j ≡ (
          if str_eq i j
          then effect (refused_on i reason) (lookup l.entries j)
          else lookup l.entries j)
  unfolding refused effect
  lookup-refused l i reason j = elim (Option-cases (lookup l.entries i)) [
    | inl e ↦ ground (arith, str_eq_iff i j)
    | inr (old, e) ↦ ground (
      arith,
      lookup-set l.entries i j (record old { reported_refusal = some reason }),
      str_eq_iff i j,
      reports-eq old.reported_refusal reason,
    )
  ]

  lookup-mark_escaped :
      (l : Ledger F) (i j : String)
      → lookup (mark_escaped l i).entries j ≡ (
          if str_eq i j
          then effect (mark_escaped_on i) (lookup l.entries j)
          else lookup l.entries j)
  unfolding mark_escaped effect
  lookup-mark_escaped l i j = elim (Option-cases (lookup l.entries i)) [
    | inl e ↦ ground (arith, str_eq_iff i j)
    | inr (old, e) ↦
        ground (arith, lookup-set l.entries i j (record old { escaped = true }), str_eq_iff i j)
  ]

  lookup-escalate :
      (l : Ledger F) (i j : String)
      → lookup (escalate l i).0.entries j
        ≡ (if str_eq i j then effect (escalate_on i) (lookup l.entries j) else lookup l.entries j)
  unfolding escalate effect
  lookup-escalate l i j = elim (Option-cases (lookup l.entries i)) [
    | inl e ↦ ground (arith, str_eq_iff i j)
    | inr (old, e) ↦
        ground (arith, lookup-set l.entries i j (record old { escalated = true }), str_eq_iff i j)
  ]

  -- After a call, its issue's entry is what the call makes of it and every other entry is as before,
  -- as long as the cap has not evicted the issue that is looked up.
  pub lookup-step :
      (l : Ledger F) (c : Call F) (j : String)
      → lookup (step l c).evicted j ≡ none
      → lookup (step l c).entries j
        ≡ (if str_eq (subject c) j then effect c (lookup l.entries j) else lookup l.entries j)
  unfolding step subject effect
  lookup-step l (dispatched_at i at) j h =
      unfold dispatched in ground (arith, lookup-put l i j _ h, str_eq_iff i j, get-or_empty l i)
  lookup-step l (spent_on i turns cost) j h =
      unfold spent in ground (arith, lookup-put l i j _ h, str_eq_iff i j, get-or_empty l i)
  lookup-step l (failed_on i) j h =
      unfold failed in ground (arith, lookup-put l i j _ h, str_eq_iff i j, get-or_empty l i)
  lookup-step l (cleared_on i) j h =
      unfold cleared in
      ground (
        arith,
        lookup-put l i j (record (get l i) { failures = 0; reported_refusal = none }),
        str_eq_iff i j,
        get-or_empty l i,
      )
  lookup-step l (observed_on i seen m) j h =
      unfold observed in
      ground (
        arith,
        lookup-put l i j (record (get l i) { failures = seeded_chain (seen - 1) m }),
        str_eq_iff i j,
        get-or_empty l i,
      )
  lookup-step l (refused_on i reason) j h = lookup-refused l i reason j
  lookup-step l (mark_escaped_on i) j h = lookup-mark_escaped l i j
  lookup-step l (escalate_on i) j h = lookup-escalate l i j
  lookup-step l (forget_on i) j h = unfold forget in ground (arith, lookup-remove l.entries i j)
