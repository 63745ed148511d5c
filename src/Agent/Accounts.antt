-- ===== src/Agent/Accounts.antt =====
-- agent/accounts.py: `AccountRegistry`, the record of which session account each workspace belongs to.
-- The modes of directories and the record's text are a parameter, `Disk`.
pub mod Bindings
use issuebot.Prelude.{
  ℕ, zero, suc, ◌+◌, String, Option, none, some, List, [], ◌∷◌, Bool, true, false, not, ◌&&◌, ◌||◌,
  ◌==◌, ltb, str_eq, in_strs, filter, map, length, if◌then◌else◌,
}
use issuebot.Prelude.Dict.{Dict, lookup, set}

-- What a call gives that may raise an `AgentError`.
pub data Answer (A : Type 0) : Type 0 where
  answer : A → Answer A
  agent_error : String → Answer A

-- The methods that a caller uses. A workspace is named by its key.
pub record Pool (W : Type 0) : Type 0 where
  pub busy_accounts : W → Answer (List String) × W
  pub bound : String → W → Answer (Option String) × W
  pub allocate : String → List String → W → Answer (Option String) × W

-- What reading the record gives: no file, a file that is of no use, or its bindings.
pub data Recorded : Type 0 where
  no_file : Recorded
  unusable : String → Recorded
  recorded : Dict String → Recorded

-- The record, why it cannot be locked or written, and which workspaces are there and which are open.
pub record Disk : Type 0 where
  pub file : Recorded
  pub lock_error : Option String
  pub write_error : Option String
  pub is_dir : String → Bool
  pub is_open : String → Bool

module _ (accounts : List String) where
  -- An account that has left the pool takes its bindings with it.
  unfoldable pub in_pool : Dict String → Dict String
  in_pool bindings = filter (λ item. in_strs item.1 accounts) bindings

  -- `_load`
  unfoldable pub load : Recorded → Answer (Dict String)
  unfolding in_pool
  load no_file = answer []
  load (unusable message) = agent_error message
  load (recorded bindings) = answer (in_pool bindings)

  -- `_store`
  unfoldable pub store : Disk → Dict String → Option String × Disk
  store disk bindings = elim disk.write_error [
    | some message ↦ (some message, disk)
    | none ↦ (none, record disk { file = recorded bindings })
  ]

  -- How many bindings an account has.
  unfoldable pub load_of : Dict String → String → ℕ
  load_of [] name = 0
  load_of ((key, account) ∷ rest) name =
      let n = load_of rest name in if str_eq account name then suc n else n

  unfoldable pub index_of : List String → String → ℕ
  index_of [] name = 0
  index_of (a ∷ rest) name = let n = index_of rest name in if str_eq a name then 0 else suc n

  -- The order of `min`'s key, the load and then the place in the pool.
  unfoldable pub is_lighter : Dict String → String → String → Bool
  unfolding load_of index_of
  is_lighter bindings a b =
      let m = load_of bindings a in
      let n = load_of bindings b in
      ltb m n || (m == n && ltb (index_of accounts a) (index_of accounts b))

  -- The lighter of an account and of the least of those after it.
  unfoldable pub pick : Dict String → String → Option String → String
  unfolding is_lighter
  pick bindings a none = a
  pick bindings a (some b) = if is_lighter bindings b a then b else a

  -- `min`: the first of the least.
  unfoldable pub least : Dict String → List String → Option String
  unfolding pick
  least bindings [] = none
  least bindings (a ∷ rest) = some (pick bindings a (least bindings rest))

  unfoldable pub free : List String → List String → List String
  free busy [] = []
  free busy (a ∷ rest) =
      let others = free busy rest in if in_strs a busy then others else a ∷ others

  unfoldable pub bind_to :
      String → Dict String → Disk → Option String → Answer (Option String) × Disk
  unfolding store
  bind_to key bindings disk none = (answer none, disk)
  bind_to key bindings disk (some chosen) =
      let (failure, disk') = store disk (set bindings key chosen) in
      elim failure [
        | some message ↦ (agent_error message, disk')
        | none ↦ (answer (some chosen), disk')
      ]

  unfoldable pub allocate_to :
      String → List String → Disk → Dict String → Option String → Answer (Option String) × Disk
  unfolding least free bind_to
  allocate_to key busy disk bindings (some existing) = (answer (some existing), disk)
  allocate_to key busy disk bindings none =
      bind_to key bindings disk (least bindings (free busy accounts))

  unfoldable pub allocate_in :
      String → List String → Disk → Answer (Dict String) → Answer (Option String) × Disk
  unfolding allocate_to
  allocate_in key busy disk (agent_error message) = (agent_error message, disk)
  allocate_in key busy disk (answer bindings) =
      allocate_to key busy disk bindings (lookup bindings key)

  -- Nothing is read without the lock.
  unfoldable pub allocate_locked :
      String → List String → Disk → Option String → Answer (Option String) × Disk
  unfolding load allocate_in
  allocate_locked key busy disk (some message) = (agent_error message, disk)
  allocate_locked key busy disk none = allocate_in key busy disk (load disk.file)

  -- `AccountRegistry.allocate`
  unfoldable pub allocate : String → List String → Disk → Answer (Option String) × Disk
  unfolding allocate_locked
  allocate key busy disk = allocate_locked key busy disk disk.lock_error

  unfoldable pub bound_in : String → Answer (Dict String) → Answer (Option String)
  bound_in key (agent_error message) = agent_error message
  bound_in key (answer bindings) = answer (lookup bindings key)

  -- `AccountRegistry.bound`
  unfoldable pub bound : String → Disk → Answer (Option String) × Disk
  unfolding load bound_in
  bound key disk = (bound_in key (load disk.file), disk)

  -- `AccountRegistry.busy_accounts`
  unfoldable pub busy_accounts : Disk → Answer (List String) × Disk
  unfolding load
  busy_accounts disk = elim (load disk.file) [
    | agent_error message ↦ (agent_error message, disk)
    | answer bindings ↦
        (answer (map (λ item. item.1) (filter (λ item. disk.is_open item.0) bindings)), disk)
  ]

  unfoldable pub is_live : List String → Disk → String → Bool
  is_live keep disk key = in_strs key keep || disk.is_dir key

  unfoldable pub live : List String → Disk → Dict String → Dict String
  unfolding is_live
  live keep disk [] = []
  live keep disk ((key, account) ∷ rest) =
      let others = live keep disk rest in
      if is_live keep disk key then (key, account) ∷ others else others

  unfoldable pub prune_in : List String → Disk → Answer (Dict String) → Option String × Disk
  unfolding live store
  prune_in keep disk (agent_error message) = (some message, disk)
  prune_in keep disk (answer bindings) =
      let left = live keep disk bindings in
      if length left == length bindings then (none, disk) else store disk left

  -- `AccountRegistry.prune`, with the error that it raises.
  unfoldable pub prune : List String → Disk → Option String × Disk
  unfolding load prune_in
  prune keep disk = elim disk.lock_error [
    | some message ↦ (some message, disk)
    | none ↦ prune_in keep disk (load disk.file)
  ]

  -- The registry as the pool that the worker asks.
  abbrev pub registry : Pool Disk
  registry = record { busy_accounts = busy_accounts; bound = bound; allocate = allocate }
