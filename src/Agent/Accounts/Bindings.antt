-- ===== src/Agent/Accounts/Bindings.antt =====
-- Which account `AccountRegistry` of agent/accounts.py gives a workspace, and that it keeps it.
use issuebot.Prelude.{
  ◌≤◌, String, Option, none, some, List, [], ◌∷◌, true, false, ◌≡◌, refl, arith, ◌||◌, str_eq,
  str_eq_iff, in_strs, any, ap, filter, if◌then◌else◌, Option-cases, Bool-cases, inl, inr, ◌⊎◌,
}
use mathlib.Core.Path.{subst}
use issuebot.Prelude.Dict.{Dict, lookup, set}
use issuebot.Agent.Accounts.{
  Answer, answer, agent_error, Recorded, no_file, unusable, recorded, Disk, in_pool, load, store,
  load_of, is_lighter, pick, least, free, bind_to, allocate_to, allocate_in, allocate_locked,
  allocate, bound, bound_in,
}

in_strs-cons : (s a : String) (xs : List String) → in_strs s (a ∷ xs) ≡ (str_eq a s || in_strs s xs)
unfolding in_strs any
in_strs-cons s a xs = ground arith

module _ (accounts : List String) (bindings : Dict String) where
  pick-cases :
      (a : String) (o : Option String)
      → (pick accounts bindings a o ≡ a) ⊎ (o ≡ some (pick accounts bindings a o))
  unfolding pick
  pick-cases a none = inl refl
  pick-cases a (some b) =
      elim (is_lighter accounts bindings b a)
        as (λ t. ((if t then b else a) ≡ a) ⊎ (some b ≡ some (if t then b else a))) [
          | true ↦ inr refl
          | false ↦ inl refl
        ]

  pick-lightest :
      (a : String) (o : Option String)
      → (load_of accounts bindings (pick accounts bindings a o) ≤ load_of accounts bindings a)
        × ((b : String)
            → o ≡ some b
            → load_of accounts bindings (pick accounts bindings a o) ≤ load_of accounts bindings b)
  unfolding pick is_lighter
  pick-lightest a none = (omega arith, λ b h. ground (arith, h))
  pick-lightest a (some c) = (ground arith, λ b h. ground (arith, h))

  least-free :
      (busy names : List String) (chosen : String)
      → least accounts bindings (free accounts busy names) ≡ some chosen
      → (in_strs chosen busy ≡ false) × (in_strs chosen names ≡ true)
  unfolding free least
  least-free busy [] chosen h = ground (arith, h)
  least-free busy (a ∷ rest) chosen h = elim (Bool-cases (in_strs a busy)) [
    | inl e ↦ ground (arith, h, e, least-free busy rest chosen, in_strs-cons chosen a rest)
    | inr e ↦ ground (
      arith,
      h,
      e,
      least-free busy rest chosen,
      in_strs-cons chosen a rest,
      str_eq_iff a chosen,
      pick-cases a (least accounts bindings (free accounts busy rest)),
    )
  ]

  least-none :
      (names : List String) (name : String)
      → least accounts bindings names ≡ none
      → in_strs name names ≡ false
  unfolding least in_strs any
  least-none [] name h = refl
  least-none (a ∷ rest) name h = ground (arith, h)

  least-lightest :
      (names : List String) (chosen name : String)
      → least accounts bindings names ≡ some chosen
      → in_strs name names ≡ true
      → load_of accounts bindings chosen ≤ load_of accounts bindings name
  unfolding least
  least-lightest [] chosen name h i = ground (arith, h)
  least-lightest (a ∷ rest) chosen name h i =
      let (below, others) = pick-lightest a (least accounts bindings rest) in
      elim (Option-cases (least accounts bindings rest)) [
        | inl e ↦ ground (
          arith,
          h,
          i,
          below,
          in_strs-cons name a rest,
          str_eq_iff a name,
          least-none rest name e,
        )
        | inr (b, e) ↦ ground (
          arith,
          h,
          i,
          below,
          others b e,
          in_strs-cons name a rest,
          str_eq_iff a name,
          least-lightest rest b name e,
        )
      ]

answered : Answer (Dict String) → Dict String
answered (answer bindings) = bindings
answered (agent_error _) = []

answer_injective : {b c : Dict String} → answer b ≡ answer c → b ≡ c
unfolding answered
answer_injective e = ap answered e

module _ (accounts : List String) where
  lookup-in_pool-set :
      (d : Dict String) (key account : String)
      → in_strs account accounts ≡ true
      → lookup (in_pool accounts (set d key account)) key ≡ some account
  unfolding in_pool set lookup filter
  lookup-in_pool-set [] key account h = ground (arith, h, str_eq_iff key key)
  lookup-in_pool-set ((j, w) ∷ d) key account h =
      ground (arith, h, lookup-in_pool-set d key account h, str_eq_iff j key)

  lookup-in_pool_twice :
      (d : Dict String) (other : String)
      → lookup (in_pool accounts (in_pool accounts d)) other ≡ lookup (in_pool accounts d) other
  unfolding in_pool lookup filter
  lookup-in_pool_twice [] other = refl
  lookup-in_pool_twice ((j, w) ∷ d) other = ground (arith, lookup-in_pool_twice d other)

  lookup-set_other :
      (d : Dict String) (key account other : String)
      → str_eq key other ≡ false
      → lookup (in_pool accounts (set d key account)) other ≡ lookup (in_pool accounts d) other
  unfolding in_pool set lookup filter
  lookup-set_other [] key account other h = ground (arith, h)
  lookup-set_other ((j, w) ∷ d) key account other h =
      ground
        (arith, h, lookup-set_other d key account other h, str_eq_iff j key, str_eq_iff j other)

  -- What was loaded has only accounts of the pool.
  load-in_pool :
      (file : Recorded) (bindings : Dict String) (other : String)
      → load accounts file ≡ answer bindings
      → lookup (in_pool accounts bindings) other ≡ lookup bindings other
  unfolding load filter
  load-in_pool no_file bindings other e =
      subst (λ b. lookup (in_pool accounts b) other ≡ lookup b other) (answer_injective e) refl
  load-in_pool (unusable message) bindings other e = ground (arith, e)
  load-in_pool (recorded d) bindings other e =
      subst (λ b. lookup (in_pool accounts b) other ≡ lookup b other) (answer_injective e)
        (lookup-in_pool_twice d other)

  bind_to-chosen :
      (key : String) (bindings : Dict String) (disk : Disk) (o : Option String) (account : String)
      → (bind_to accounts key bindings disk o).0 ≡ answer (some account)
      → (o ≡ some account)
        × ((bind_to accounts key bindings disk o).1.file ≡ recorded (set bindings key account))
  unfolding bind_to store
  bind_to-chosen key bindings disk none account h = ground (arith, h)
  bind_to-chosen key bindings disk (some chosen) account h = ground (arith, h)

  allocate_to-new :
      (key : String) (busy : List String) (disk : Disk) (bindings : Dict String) (account : String)
      (existing : Option String)
      → existing ≡ none
      → (allocate_to accounts key busy disk bindings existing).0 ≡ answer (some account)
      → (least accounts bindings (free accounts busy accounts) ≡ some account)
        × ((allocate_to accounts key busy disk bindings existing).1.file
            ≡ recorded (set bindings key account))
  unfolding allocate_to
  allocate_to-new key busy disk bindings account none n h =
      bind_to-chosen key bindings disk (least accounts bindings (free accounts busy accounts))
        account h
  allocate_to-new key busy disk bindings account (some _) n h = ground (arith, n)

  allocate_in-new :
      (key : String) (busy : List String) (disk : Disk) (bindings : Dict String) (account : String)
      (found : Answer (Dict String))
      → found ≡ answer bindings
      → lookup bindings key ≡ none
      → (allocate_in accounts key busy disk found).0 ≡ answer (some account)
      → (least accounts bindings (free accounts busy accounts) ≡ some account)
        × ((allocate_in accounts key busy disk found).1.file ≡ recorded (set bindings key account))
  unfolding allocate_in
  allocate_in-new key busy disk bindings account found e n h = rw e (
      allocate_to-new key busy disk bindings account (lookup bindings key) n
        (subst (λ f. (allocate_in accounts key busy disk f).0 ≡ answer (some account)) e h))

  allocate_locked-new :
      (key : String) (busy : List String) (disk : Disk) (bindings : Dict String) (account : String)
      (lock : Option String)
      → load accounts disk.file ≡ answer bindings
      → lookup bindings key ≡ none
      → (allocate_locked accounts key busy disk lock).0 ≡ answer (some account)
      → (least accounts bindings (free accounts busy accounts) ≡ some account)
        × ((allocate_locked accounts key busy disk lock).1.file
            ≡ recorded (set bindings key account))
  unfolding allocate_locked
  allocate_locked-new key busy disk bindings account (some message) e n h = ground (arith, h)
  allocate_locked-new key busy disk bindings account none e n h =
      allocate_in-new key busy disk bindings account (load accounts disk.file) e n h

  -- An account that is given to a workspace that was not bound yet is one of the pool and not busy,
  -- and no account that is free has fewer workspaces.
  pub allocate-separates :
      (key : String) (busy : List String) (disk : Disk) (bindings : Dict String) (account : String)
      → load accounts disk.file ≡ answer bindings
      → lookup bindings key ≡ none
      → (allocate accounts key busy disk).0 ≡ answer (some account)
      → (in_strs account busy ≡ false)
        × (in_strs account accounts ≡ true)
        × ((name : String)
            → in_strs name (free accounts busy accounts) ≡ true
            → load_of accounts bindings account ≤ load_of accounts bindings name)
  unfolding allocate
  allocate-separates key busy disk bindings account e n h =
      let (l, _) = allocate_locked-new key busy disk bindings account disk.lock_error e n h in
      let (apart, ours) = least-free accounts bindings busy accounts account l in
      (
        apart,
        ours,
        λ name i. least-lightest accounts bindings (free accounts busy accounts) account name l i,
      )

  -- A workspace that was not bound yet and that is given an account is bound to it afterwards, and
  -- every other workspace is bound to what it was bound to before.
  pub allocate-bound :
      (key : String) (busy : List String) (disk : Disk) (bindings : Dict String) (account : String)
      → load accounts disk.file ≡ answer bindings
      → lookup bindings key ≡ none
      → (allocate accounts key busy disk).0 ≡ answer (some account)
      → let disk' = (allocate accounts key busy disk).1 in
        ((bound accounts key disk').0 ≡ answer (some account))
        × ((other : String)
            → str_eq key other ≡ false
            → (bound accounts other disk').0 ≡ (bound accounts other disk).0)
  unfolding allocate bound bound_in load
  allocate-bound key busy disk bindings account e n h =
      let (l, file) = allocate_locked-new key busy disk bindings account disk.lock_error e n h in
      let ours = (least-free accounts bindings busy accounts account l).1 in
      (
        rw (file, lookup-in_pool-set bindings key account ours) refl,
        λ other apart.
            rw
              (
                file,
                e,
                lookup-set_other bindings key account other apart,
                load-in_pool disk.file bindings other e,
              )
              refl,
      )
