-- ===== src/Tests/Accounts.antt =====
-- Tests of the account registry, and of a worker that asks one.
use issuebot.Prelude.{
  ◌≤◌, String, none, some, List, [], ◌∷◌, true, false, ◌≡◌, refl, str_eq, in_strs, filter, any,
}
use issuebot.Prelude.Dict.{Dict, lookup}
use issuebot.Agent.Accounts.{
  answer, recorded, Disk, in_pool, load, load_of, index_of, is_lighter, pick, least, free, store,
  bind_to, allocate_to, allocate_in, allocate_locked, allocate, bound,
}
use issuebot.Agent.Accounts.Bindings.{allocate-separates, allocate-bound}

abbrev accounts : List String
accounts = "agent1" ∷ "agent2" ∷ "agent3" ∷ []

abbrev bindings : Dict String
bindings = ("octo-1", "agent1") ∷ ("octo-2", "agent2") ∷ ("octo-3", "agent2") ∷ []

abbrev disk : Disk
disk = record {
  file = recorded (("octo-0", "gone") ∷ bindings);
  lock_error = none;
  write_error = none;
  is_dir = λ key. true;
  is_open = λ key. str_eq key "octo-1";
}

loads : load accounts disk.file ≡ answer bindings
unfolding load in_pool filter in_strs any str_eq
loads = refl

is_new : lookup bindings "octo-7" ≡ none
unfolding lookup str_eq
is_new = refl

-- `agent3` is busy, and `agent1` has fewer workspaces than `agent2`.
gives : (allocate accounts "octo-7" ("agent3" ∷ []) disk).0 ≡ answer (some "agent1")
unfolding allocate allocate_locked allocate_in allocate_to bind_to load in_pool filter in_strs any
    lookup least pick is_lighter load_of index_of free store str_eq
gives = refl

allocate-separates_example :
    (in_strs "agent1" ("agent3" ∷ []) ≡ false)
    × (in_strs "agent1" accounts ≡ true)
    × ((name : String)
        → in_strs name (free accounts ("agent3" ∷ []) accounts) ≡ true
        → load_of accounts bindings "agent1" ≤ load_of accounts bindings name)
allocate-separates_example =
    allocate-separates accounts "octo-7" ("agent3" ∷ []) disk bindings "agent1" loads is_new gives

allocate-bound_example :
    ((bound accounts "octo-7" (allocate accounts "octo-7" ("agent3" ∷ []) disk).1).0
      ≡ answer (some "agent1"))
    × ((other : String)
        → str_eq "octo-7" other ≡ false
        → (bound accounts other (allocate accounts "octo-7" ("agent3" ∷ []) disk).1).0
          ≡ (bound accounts other disk).0)
allocate-bound_example =
    allocate-bound accounts "octo-7" ("agent3" ∷ []) disk bindings "agent1" loads is_new gives
