-- ===== src/Events/Bus/Registry.antt =====
-- The sinks of events/bus.py: one for each name.
use mathlib.Core.List.{append-nil, append_assoc}
use issuebot.Prelude.{
  ℕ, String, some, str_eq_refl, List, [], ◌∷◌, ◌++◌, false, not, ◌||◌, any, filter, str_eq,
  str_eq_iff, ◌≡◌, ap, ◌∙◌, refl, arith, Option-cases, inl, inr,
}
use issuebot.Prelude.Dict.{Dict}
use issuebot.Events.Bus.{EventSink, EventBus, add_sink, remove_sink, init_from, init}

module _ {W : Type 0} where
  any_name-append :
      (name : String) (xs : List (EventSink W)) (s : EventSink W)
      → any (λ x. str_eq x.name name) (xs ++ s ∷ [])
        ≡ (any (λ x. str_eq x.name name) xs || str_eq s.name name)
  unfolding any
  any_name-append name [] s = ground arith
  any_name-append name (x ∷ xs) s = ground (arith, any_name-append name xs s)

  -- No two sinks are registered under one name.
  abbrev pub IsDistinct : List (EventSink W) → Type 0
  IsDistinct [] = Unit
  IsDistinct (s ∷ ss) = (any (λ x. str_eq x.name s.name) ss ≡ false) × IsDistinct ss

  IsDistinct-append :
      (ss : List (EventSink W)) (s : EventSink W)
      → any (λ x. str_eq x.name s.name) ss ≡ false
      → IsDistinct ss
      → IsDistinct (ss ++ s ∷ [])
  unfolding any
  IsDistinct-append [] s h v = (refl, tt)
  IsDistinct-append (x ∷ xs) s h v = ground (
    arith,
    IsDistinct-append xs s,
    any_name-append x.name xs s,
    str_eq_iff x.name s.name,
    str_eq_iff s.name x.name,
  )

  add_sink-some :
      (b b' : EventBus W) (s : EventSink W)
      → add_sink b s ≡ some b'
      → (b'.sinks ≡ b.sinks ++ s ∷ []) × (any (λ x. str_eq x.name s.name) b.sinks ≡ false)
  unfolding add_sink
  add_sink-some b b' s h = ground arith

  init_from-IsDistinct :
      (b b' : EventBus W) (ss : List (EventSink W))
      → IsDistinct b.sinks
      → init_from b ss ≡ some b'
      → IsDistinct b'.sinks × (b'.sinks ≡ b.sinks ++ ss)
  unfolding init_from
  init_from-IsDistinct b b' [] v h = (ground arith, ground (arith, append-nil b.sinks))
  init_from-IsDistinct b b' (s ∷ ss) v h = elim (Option-cases (add_sink b s)) [
    | inl e ↦ cc (rw (e, init_from) at h)
    | inr (b1, e) ↦
        let (same, new) = add_sink-some b b1 s e in
        let v1 : IsDistinct b1.sinks = rw same (IsDistinct-append b.sinks s new v) in
        let (distinct, all_of) = init_from-IsDistinct b1 b' ss v1 (rw (e, init_from) at h) in
        (distinct, all_of ∙ ap (λ xs. xs ++ ss) same ∙ append_assoc b.sinks (s ∷ []) ss)
  ]

  -- A bus that was built holds the sinks it was given, in order, and no two of them share a name.
  pub init-IsDistinct :
      (ss : List (EventSink W)) (b : EventBus W)
      → init ss ≡ some b
      → IsDistinct b.sinks × (b.sinks ≡ ss)
  unfolding init
  init-IsDistinct ss b h = init_from-IsDistinct _ b ss tt h

  any_name-among :
      (name : String) (xs ys : List (EventSink W)) (old : EventSink W)
      → any (λ x. str_eq x.name name) (xs ++ old ∷ ys) ≡ false
      → str_eq name old.name ≡ false
  unfolding any
  any_name-among name [] ys old h =
      ground (arith, str_eq_iff old.name name, str_eq_iff name old.name)
  any_name-among name (x ∷ xs) ys old h = ground (arith, any_name-among name xs ys old)

  remove-names :
      (name : String) (ss : List (EventSink W))
      → any (λ x. str_eq x.name name) (filter (λ s. not (str_eq s.name name)) ss) ≡ false
  unfolding any filter
  remove-names name [] = refl
  remove-names name (s ∷ ss) = ground (arith, remove-names name ss)

  others-stay :
      (name : String) (ss : List (EventSink W))
      → any (λ x. str_eq x.name name) ss ≡ false
      → filter (λ s. not (str_eq s.name name)) ss ≡ ss
  unfolding any filter
  others-stay name [] h = refl
  others-stay name (s ∷ ss) h = ground (arith, others-stay name ss)

  filter-named :
      (xs ys : List (EventSink W)) (old : EventSink W)
      → IsDistinct (xs ++ old ∷ ys)
      → filter (λ s. not (str_eq s.name old.name)) (xs ++ old ∷ ys) ≡ xs ++ ys
  unfolding filter
  filter-named [] ys old v = ground (arith, others-stay old.name ys v.0, str_eq_refl old.name)
  filter-named (x ∷ xs) ys old v =
      ground (arith, filter-named xs ys old v.1, any_name-among x.name xs ys old v.0)

  -- On a bus with one sink for each name, removing a name and adding another sink under it takes the
  -- old sink out, leaves all others registered in their order with the failures counted so far, and
  -- calls the new sink last.
  pub add-remove_sink :
      (xs ys : List (EventSink W)) (old new : EventSink W) (failures : Dict ℕ)
      → IsDistinct (xs ++ old ∷ ys)
      → old.name ≡ new.name
      → add_sink (remove_sink (record { sinks = xs ++ old ∷ ys; failures = failures }) new.name) new
        ≡ some (record { sinks = (xs ++ ys) ++ new ∷ []; failures = failures })
  unfolding add_sink remove_sink
  add-remove_sink xs ys old new failures v same =
      let free = remove-names old.name (xs ++ old ∷ ys) in
      let rest = filter-named xs ys old v in rw (← same, free, rest) refl
