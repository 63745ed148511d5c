-- ===== src/Orchestrator/Worker/Separate.antt =====
-- `_bind_account` of orchestrator/orchestrator.py: no two sessions of this worker share an account.
use issuebot.Prelude.{
  String, Option, none, some, List, [], ◌∷◌, ◌++◌, Bool, true, false, ◌≡◌, refl, arith, in_strs,
  any, Bool-cases,
}
use issuebot.GitHub.Models.{Issue}
use issuebot.GitHub.Adapter.{ok, Exec}
use issuebot.Agent.Accounts.{Answer, answer, agent_error, Pool}
use issuebot.Orchestrator.Actions.{World}
use issuebot.Orchestrator.Worker.Dispatch.{
  Accounts, accounts_in_use, unbound, if_free, ask, allocated, allocate_for, bind_in,
  bind_unless_blocked, bind_account,
}
use issuebot.Orchestrator.Worker.Effects.{Orch, update, inspect}

in_strs-append :
    (s : String) (xs ys : List String) → in_strs s (xs ++ ys) ≡ false → in_strs s xs ≡ false
unfolding in_strs any
in_strs-append s [] ys h = refl
in_strs-append s (x ∷ xs) ys h = ground (arith, h, in_strs-append s xs ys)

module _ {F S G : Type 0} (own : List String) where
  -- An account that it answers is none of these.
  abbrev Avoids : Exec (Orch F S G) (Option String × Bool) → Type 0
  Avoids m =
      (u : Orch F S G) (account : String)
      → (m u).0 ≡ ok (some account, true)
      → in_strs account own ≡ false

  unbound-Avoids : (message : String) → Avoids (unbound message)
  unfolding unbound update
  unbound-Avoids message u account h = ground (arith, h)

  if_free-Avoids :
      (others : List String) (found : Option String) → Avoids (if_free (own ++ others) found)
  unfolding if_free
  if_free-Avoids others none u account h = ground (arith, h)
  if_free-Avoids others (some found) u account h =
      ground
        (arith, h, in_strs-append account own others, Bool-cases (in_strs found (own ++ others)))

  module _ (pool : Pool (World S G)) (key : String) (others : List String) where
    allocated-Avoids : (found : Answer (Option String)) → Avoids (allocated (own ++ others) found)
    unfolding allocated
    allocated-Avoids (answer found) = if_free-Avoids others found
    allocated-Avoids (agent_error message) = unbound-Avoids message

    allocate_for-Avoids :
        (found : Answer (Option String)) → Avoids (allocate_for pool key (own ++ others) found)
    unfolding allocate_for ask
    allocate_for-Avoids (agent_error message) u account h = unbound-Avoids message u account h
    allocate_for-Avoids (answer (some found)) u account h =
        if_free-Avoids others (some found) u account h
    allocate_for-Avoids (answer none) (w, g) account h =
        let (found, g') = pool.allocate key (own ++ others) g in
        allocated-Avoids found (w, g') account h

  module _ (pool : Pool (World S G)) (key : String) where
    bind_in-Avoids : (others : Answer (List String)) → Avoids (bind_in pool key own others)
    unfolding bind_in ask
    bind_in-Avoids (agent_error message) u account h = unbound-Avoids message u account h
    bind_in-Avoids (answer others) (w, g) account h =
        let (found, g') = pool.bound key g in
        allocate_for-Avoids pool key others found (w, g') account h

  bind_unless_blocked-Avoids :
      (accounts : Accounts (World S G)) (issue : Issue) (block : Option String)
      (pool : Pool (World S G))
      → Avoids (bind_unless_blocked accounts issue own block (some pool))
  unfolding bind_unless_blocked ask
  bind_unless_blocked-Avoids accounts issue (some message) pool u account h = ground (arith, h)
  bind_unless_blocked-Avoids accounts issue none pool (w, g) account h =
      let (others, g') = pool.busy_accounts g in
      bind_in-Avoids pool (accounts.workspace_key issue.identifier) others (w, g') account h

module _ {F S G : Type 0} (accounts : Accounts (World S G)) (issue : Issue) where
  pool-Avoids :
      (u : Orch F S G) (pool : Option (Pool (World S G))) (known : Pool (World S G))
      (account : String)
      → pool ≡ some known
      → (bind_unless_blocked accounts issue
          (accounts_in_use u.0.running)
          u.0.holds.run_as_block
          pool
          u).0
        ≡ ok (some account, true)
      → in_strs account (accounts_in_use u.0.running) ≡ false
  pool-Avoids u none known account e h = ground (arith, e)
  pool-Avoids u (some pool) known account e h =
      bind_unless_blocked-Avoids (accounts_in_use u.0.running) accounts issue u.0.holds.run_as_block
        pool u account h

  -- With a pool of accounts, whatever the pool answers: an account that an issue is given is none that
  -- a running session of this worker has.
  pub bind_account-separate :
      (u : Orch F S G) (pool : Pool (World S G)) (account : String)
      → accounts.pool ≡ some pool
      → (bind_account accounts issue u).0 ≡ ok (some account, true)
      → in_strs account (accounts_in_use u.0.running) ≡ false
  unfolding bind_account inspect
  bind_account-separate u pool account e h = pool-Avoids u accounts.pool pool account e h
