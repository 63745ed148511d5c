-- ===== src/Orchestrator/Holds/Lasting.antt =====
-- What the snapshot says of a hold, against what the gate is told (orchestrator/orchestrator.py).
use issuebot.Prelude.{
  String, Option, none, some, List, [], ◌∷◌, true, false, ◌≡◌, refl, arith, ◌==◌, Bool-cases, inl,
  inr, All, str_eq_iff, ◌∙◌, sym, ap, str_eq_refl,
}
use issuebot.GitHub.Models.{Instant}
use issuebot.Orchestrator.Admission.Gate.{DispatchHoldKind, Hold}
use issuebot.Orchestrator.Holds.{Holds, DispatchHold}
use issuebot.Orchestrator.Holds.Shown.{
  current_hold, kind_code, identity, same_identity, shown_as, snapshot_of, hold_snapshot,
  release_snapshot_hold, carry, settle_dispatch_hold,
}

kind_code-injective : (k l : DispatchHoldKind) → (kind_code k == kind_code l) ≡ true → k ≡ l
unfolding kind_code
kind_code-injective k l e = ground arith

-- The kind and the reason, as the snapshot and as the gate have them.
unfoldable pub shown_claim : Option DispatchHold → Option (DispatchHoldKind × String)
shown_claim none = none
shown_claim (some shown) = some (shown.kind, shown.reason)

unfoldable pub gate_claim : Option Hold → Option (DispatchHoldKind × String)
gate_claim none = none
gate_claim (some hold) = some (hold.kind, hold.reason)

-- The recorded identity is of the kind that is shown.
abbrev pub IsRecorded : Option DispatchHold → Option (DispatchHoldKind × String) → Type 0
IsRecorded none i = Unit
IsRecorded (some shown) none = Unit
IsRecorded (some shown) (some i) = i.0 ≡ shown.kind

abbrev pub IsShown : Holds → Type 0
IsShown h = IsRecorded h.dispatch_hold h.hold_identity

same_identity-some :
    (i : Option (DispatchHoldKind × String)) (j : DispatchHoldKind × String)
    → same_identity i j ≡ true
    → i ≡ some j
unfolding same_identity
same_identity-some none j e = absurd (ground arith)
same_identity-some (some (k, t)) (l, u) e = ground (arith, kind_code-injective k l, str_eq_iff t u)

module _ (hold : Hold) (now : Instant) where
  lasting-shown :
      (shown : DispatchHold) (last : Option (DispatchHoldKind × String))
      → last ≡ some (identity hold)
      → IsRecorded (some shown) last
      → IsRecorded (some shown) last
        × (shown.kind ≡ hold.kind)
        × (hold.reason ≡ hold.reason)
        × (last ≡ some (identity hold))
  unfolding identity
  lasting-shown shown none e r = absurd (ground arith)
  lasting-shown shown (some i) e r = (r, ground arith, refl, e)

  snapshot-shown :
      (shown : Option DispatchHold) (last : Option (DispatchHoldKind × String))
      → IsRecorded shown last
      → let (shown', last') = snapshot_of shown last hold now in
        IsRecorded (some shown') last'
        × (shown'.kind ≡ hold.kind)
        × (shown'.reason ≡ hold.reason)
        × (last' ≡ some (identity hold))
  unfolding snapshot_of shown_as identity
  snapshot-shown none last r = (refl, refl, refl, refl)
  snapshot-shown (some shown) last r = elim (Bool-cases (same_identity last (identity hold))) [
    | inl e ↦ rw e (lasting-shown shown last (same_identity-some last (identity hold) e) r)
    | inr e ↦ rw e (refl, refl, refl, refl)
  ]

carry-IsShown :
    (h : Holds) (hold : Option Hold) (now : Instant)
    → IsShown h
    → let h' = carry h hold now in IsShown h' × (shown_claim h'.dispatch_hold ≡ gate_claim hold)
unfolding carry hold_snapshot release_snapshot_hold shown_claim gate_claim
carry-IsShown h none now s = (tt, refl)
carry-IsShown h (some hold) now s =
    let (r, k, m, i) = snapshot-shown hold now h.dispatch_hold h.hold_identity s in
    (r, rw (k, m) refl)

-- A settling leaves in the snapshot the kind and the reason that the gate is told, for as long as the
-- identity recorded beside a shown hold is of its kind, which every settling keeps.
pub settle_dispatch_hold-IsShown :
    (h : Holds) (now : Instant)
    → IsShown h
    → let h' = settle_dispatch_hold h now in
      IsShown h' × (shown_claim h'.dispatch_hold ≡ gate_claim (current_hold h))
unfolding settle_dispatch_hold
settle_dispatch_hold-IsShown h now s = carry-IsShown h (current_hold h) now s

-- One after the other, each with the hold and the time of its tick.
unfoldable pub carry_all : Holds → List (Hold × Instant) → Holds
unfolding carry
carry_all h [] = h
carry_all h ((hold, now) ∷ ticks) = carry_all (carry h (some hold) now) ticks

-- A hold of that identity and kind is shown since then.
abbrev pub LastsSince : Instant → Hold → Holds → Type 0
LastsSince since hold h =
    (shown : DispatchHold) × (h.dispatch_hold ≡ some shown)
    × (shown.since ≡ since)
    × (shown.kind ≡ hold.kind)
    × (h.hold_identity ≡ some (identity hold))

same_identity_refl : (i : DispatchHoldKind × String) → same_identity (some i) i ≡ true
unfolding same_identity
same_identity_refl (k, t) = ground (arith, str_eq_refl t)

snapshot-lasts :
    (o : Option DispatchHold) (last : Option (DispatchHoldKind × String)) (shown : DispatchHold)
    (hold later : Hold) (now : Instant)
    → o ≡ some shown
    → last ≡ some (identity later)
    → let (shown', last') = snapshot_of o last later now in
      (shown'.since ≡ shown.since) × (shown'.kind ≡ shown.kind) × (last' ≡ last)
unfolding snapshot_of
snapshot-lasts none last shown hold later now e i = absurd (ground arith)
snapshot-lasts (some old) last shown hold later now e i =
    rw (i, same_identity_refl (identity later)) ground arith

carry-LastsSince :
    (since now : Instant) (hold later : Hold) (h : Holds)
    → identity later ≡ identity hold
    → LastsSince since hold h
    → LastsSince since hold (carry h (some later) now)
unfolding carry hold_snapshot
carry-LastsSince since now hold later h e (shown, d, s, k, i) =
    let (s', k', i') =
      snapshot-lasts h.dispatch_hold h.hold_identity shown hold later now d (i ∙ ap some (sym e)) in
    ((snapshot_of h.dispatch_hold h.hold_identity later now).0, refl, s' ∙ s, k' ∙ k, i' ∙ i)

carry_all-LastsSince :
    (since : Instant) (hold : Hold) (h : Holds) (ticks : List (Hold × Instant))
    → All (λ tick. identity tick.0 ≡ identity hold) ticks
    → LastsSince since hold h
    → LastsSince since hold (carry_all h ticks)
unfolding carry_all
carry_all-LastsSince since hold h [] all l = l
carry_all-LastsSince since hold h ((later, now) ∷ ticks) all l =
    carry_all-LastsSince since hold (carry h (some later) now) ticks all.1
      (carry-LastsSince since now hold later h all.0 l)

snapshot-new :
    (o : Option DispatchHold) (last : Option (DispatchHoldKind × String)) (hold : Hold)
    (now : Instant)
    → same_identity last (identity hold) ≡ false
    → snapshot_of o last hold now ≡ (shown_as hold now, some (identity hold))
unfolding snapshot_of
snapshot-new none last hold now e = refl
snapshot-new (some shown) last hold now e = rw e refl

-- A hold that is not the one shown is shown since the tick that settles it, and stays so over any
-- ticks on which it is the same hold, whatever its wording by then.
pub carry_all-lasting :
    (h : Holds) (hold : Hold) (now : Instant) (ticks : List (Hold × Instant))
    → same_identity h.hold_identity (identity hold) ≡ false
    → All (λ tick. identity tick.0 ≡ identity hold) ticks
    → LastsSince now hold (carry_all h ((hold, now) ∷ ticks))
unfolding carry_all carry hold_snapshot
carry_all-lasting h hold now ticks e all =
    let new = snapshot-new h.dispatch_hold h.hold_identity hold now e in
    carry_all-LastsSince now hold (carry h (some hold) now) ticks all
      (shown_as hold now, ap (λ p. some p.0) new, refl, refl, ap (λ p. p.1) new)
