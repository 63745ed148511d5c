-- ===== src/Orchestrator/Worker/Reads.antt =====
-- What is asked before a run starts leaves the tables of runs and of retries as they are.
use issuebot.Prelude.{String, Option, none, some, List, ◌++◌, Bool, true, false, refl, in_strs}
use issuebot.GitHub.Models.{Issue, RepoInfo}
use issuebot.GitHub.Adapter.{Result, ok, err, pure, attempt, GitHubAdapter}
use issuebot.Agent.Accounts.{Answer, answer, agent_error, Pool}
use issuebot.Orchestrator.Approval.{Assessment}
use issuebot.Orchestrator.Actions.{World}
use issuebot.Orchestrator.Actions.Effects.{bind-Keeps, if-Keeps, attempt-Keeps}
use issuebot.Orchestrator.Worker.{ApprovalKey}
use issuebot.Orchestrator.Worker.Approvals.{
  keep_standing, remember, keep_own_standing, own_standing, assess_as, assess_now, keep_verdict,
  unreadable_history, assessed, assess_unless_remembered, assess_approval, key_of, remembered,
}
use issuebot.Orchestrator.Worker.Dispatch.{
  Accounts, unbound, block_accounts, if_free, ask, allocated, allocate_for, bind_in,
  bind_unless_blocked, bind_account, accounts_in_use,
}
use issuebot.Orchestrator.Worker.Effects.{outside, update}
use issuebot.Orchestrator.Worker.Tables.{
  tables, KeepsTables, inspect_then-Keeps, outside_then-Keeps,
}

module _ {F S G : Type 0} (a : GitHubAdapter (World S G)) where
  keep_own_standing-Keeps : (info : RepoInfo) → KeepsTables {F = F} (keep_own_standing a info)
  unfolding keep_own_standing update keep_standing
  keep_own_standing-Keeps info u = refl

  own_standing-Keeps : (own : Option Bool) → KeepsTables {F = F} (own_standing a own)
  unfolding own_standing
  own_standing-Keeps (some admin) = λ u. refl
  own_standing-Keeps none =
      outside_then-Keeps a.repo_info (keep_own_standing a) keep_own_standing-Keeps

  assess_as-Keeps :
      (issue : Issue) (label : String) (authorship admin : Bool)
      → KeepsTables {F = F} (assess_as a issue label authorship admin)
  unfolding assess_as outside
  assess_as-Keeps issue label authorship admin u = refl

  assess_now-Keeps :
      (issue : Issue) (label : String) (authorship : Bool) (own : Option Bool)
      → KeepsTables {F = F} (assess_now a issue label authorship own)
  unfolding assess_now
  assess_now-Keeps issue label authorship own =
      bind-Keeps tables (own_standing a own) (assess_as a issue label authorship)
        (own_standing-Keeps own) (assess_as-Keeps issue label authorship)

  keep_verdict-Keeps :
      (issue : Issue) (key : ApprovalKey) (verdict : Assessment)
      → KeepsTables {F = F} (keep_verdict a issue key verdict)
  unfolding keep_verdict update remember
  keep_verdict-Keeps issue key verdict u = refl

  assessed-Keeps :
      (issue : Issue) (key : ApprovalKey) (r : Result Assessment)
      → KeepsTables {F = F} (assessed a issue key r)
  unfolding assessed
  assessed-Keeps issue key (ok verdict) = keep_verdict-Keeps issue key verdict
  assessed-Keeps issue key (err e) =
      let verdict = unreadable_history e in
      if-Keeps tables e.page_ceiling (keep_verdict a issue key verdict) (pure none)
        (keep_verdict-Keeps issue key verdict) (λ u. refl)

  assess_unless_remembered-Keeps :
      (issue : Issue) (label : String) (authorship : Bool) (own : Option Bool)
      (known : Option Assessment)
      → KeepsTables {F = F} (assess_unless_remembered a issue label authorship own known)
  unfolding assess_unless_remembered
  assess_unless_remembered-Keeps issue label authorship own (some verdict) = λ u. refl
  assess_unless_remembered-Keeps issue label authorship own none =
      bind-Keeps tables (attempt (assess_now a issue label authorship own))
        (assessed a issue (key_of issue label authorship))
        (attempt-Keeps tables (assess_now a issue label authorship own)
          (assess_now-Keeps issue label authorship own))
        (assessed-Keeps issue (key_of issue label authorship))

  pub assess_approval-Keeps :
      (issue : Issue) (label : String) (authorship : Bool)
      → KeepsTables {F = F} (assess_approval a issue label authorship)
  unfolding assess_approval
  assess_approval-Keeps issue label authorship =
      inspect_then-Keeps
        (λ w.
          assess_unless_remembered a issue label authorship w.own_labels_approve
            (remembered w.approval_verdicts issue.id (key_of issue label authorship)))
        (λ w.
          assess_unless_remembered-Keeps issue label authorship w.own_labels_approve
            (remembered w.approval_verdicts issue.id (key_of issue label authorship)))

module _ {F S G : Type 0} where
  unbound-Keeps : (message : String) → KeepsTables {F = F} {S = S} {G = G} (unbound message)
  unfolding unbound update block_accounts
  unbound-Keeps message u = refl

  ask-Keeps :
      {A : Type 0} (call : World S G → Answer A × World S G) → KeepsTables {F = F} (ask call)
  unfolding ask
  ask-Keeps call u = refl

  if_free-Keeps :
      (busy : List String) (account : Option String)
      → KeepsTables {F = F} {S = S} {G = G} (if_free busy account)
  unfolding if_free
  if_free-Keeps busy none = λ u. refl
  if_free-Keeps busy (some account) =
      if-Keeps tables (in_strs account busy) (pure (none, false)) (pure (some account, true))
        (λ u. refl) (λ u. refl)

  allocated-Keeps :
      (busy : List String) (found : Answer (Option String))
      → KeepsTables {F = F} {S = S} {G = G} (allocated busy found)
  unfolding allocated
  allocated-Keeps busy (answer account) = if_free-Keeps busy account
  allocated-Keeps busy (agent_error message) = unbound-Keeps message

  module _ (pool : Pool (World S G)) (key : String) where
    allocate_for-Keeps :
        (busy : List String) (found : Answer (Option String))
        → KeepsTables {F = F} (allocate_for pool key busy found)
    unfolding allocate_for
    allocate_for-Keeps busy (agent_error message) = unbound-Keeps message
    allocate_for-Keeps busy (answer (some account)) = if_free-Keeps busy (some account)
    allocate_for-Keeps busy (answer none) =
        bind-Keeps tables (ask (pool.allocate key busy)) (allocated busy)
          (ask-Keeps (pool.allocate key busy)) (allocated-Keeps busy)

    bind_in-Keeps :
        (own : List String) (others : Answer (List String))
        → KeepsTables {F = F} (bind_in pool key own others)
    unfolding bind_in
    bind_in-Keeps own (agent_error message) = unbound-Keeps message
    bind_in-Keeps own (answer others) =
        bind-Keeps tables (ask (pool.bound key)) (allocate_for pool key (own ++ others))
          (ask-Keeps (pool.bound key)) (allocate_for-Keeps (own ++ others))

  module _ (accounts : Accounts (World S G)) (issue : Issue) where
    bind_unless_blocked-Keeps :
        (own : List String) (block : Option String) (pool : Option (Pool (World S G)))
        → KeepsTables {F = F} (bind_unless_blocked accounts issue own block pool)
    unfolding bind_unless_blocked
    bind_unless_blocked-Keeps own (some _) pool = λ u. refl
    bind_unless_blocked-Keeps own none none = λ u. refl
    bind_unless_blocked-Keeps own none (some pool) =
        let key = accounts.workspace_key issue.identifier in
        bind-Keeps tables (ask pool.busy_accounts) (bind_in pool key own)
          (ask-Keeps pool.busy_accounts) (bind_in-Keeps pool key own)

    pub bind_account-Keeps : KeepsTables {F = F} (bind_account accounts issue)
    unfolding bind_account
    bind_account-Keeps =
        inspect_then-Keeps
          (λ w.
            bind_unless_blocked accounts issue (accounts_in_use w.running) w.holds.run_as_block
              accounts.pool)
          (λ w.
            bind_unless_blocked-Keeps (accounts_in_use w.running) w.holds.run_as_block
              accounts.pool)
