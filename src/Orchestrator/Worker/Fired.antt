-- ===== src/Orchestrator/Worker/Fired.antt =====
-- `_fire` and `fire_due_retries` of orchestrator/orchestrator.py keep the two tables valid.
use issuebot.Prelude.{
  ℕ, String, Option, none, some, List, [], ◌∷◌, true, ◌≡◌, refl, arith, if◌then◌else◌,
}
use issuebot.Prelude.Float.{Float}
use issuebot.Prelude.Text.{◌<>◌}
use issuebot.Prelude.Dict.{remove}
use issuebot.GitHub.Models.{Issue, opened}
use issuebot.GitHub.Adapter.{Result, ok, err, pure, attempt, GitHubAdapter, ◌>>◌}
use issuebot.Orchestrator.Admission.Gate.{
  Admission, admitted, refused, RefusalKind, RetryKind, work,
}
use issuebot.Orchestrator.Runtime.{RetryEntry, BlockedContext}
use issuebot.Orchestrator.Actions.{World}
use issuebot.Orchestrator.Actions.Effects.{attempt-Keeps}
use issuebot.Orchestrator.Actions.Finish.{Workspaces}
use issuebot.Orchestrator.Worker.{Worker, Clock, Settings, admit_issue_of}
use issuebot.Orchestrator.Worker.Refusals.{put_back, release_to, wait_with, wait_or_release}
use issuebot.Orchestrator.Worker.Dispatch.{Accounts, Start, bind_account}
use issuebot.Orchestrator.Worker.Retries.{
  finish, fire_bound, fire_admitted, fire_open, fire_refreshed, fire_asked, fire_run, fire_as, fire,
  fire_escape, is_escape, still_waits, take_retry, due_retries, fire_if_waiting, fire_all,
  fire_due_retries,
}
use issuebot.Orchestrator.Worker.Effects.{Orch, outside, update}
use issuebot.Orchestrator.Worker.Tables.{
  Tables, tables, KeepsTables, outside-Keeps, then_return-Keeps, handle_refusal-Keeps,
}
use issuebot.Orchestrator.Worker.Reads.{bind_account-Keeps}
use issuebot.Orchestrator.Worker.Moves.{
  IsValid, IsFree, set_retry-IsValid, remove_retry-IsValid, Moves, keeps-Moves, after-Moves,
  inspect-Moves, continue-Moves, look-Moves, branch-Moves, if-Moves,
}
use issuebot.Orchestrator.Worker.Firing.{
  admitted-room, IsReady, requeue-Moves, finish-Keeps, fire_escape-Moves, fire_bound-Moves,
}

module _ {F : Type 0} ⦃f : Float F⦄ {S G : Type 0} (a : GitHubAdapter (World S G))
    (workspaces : Workspaces (World S G)) (accounts : Accounts (World S G)) (settings : Settings F)
    (clock : Clock) (start : Start) (entry : RetryEntry) where
  release_to-Keeps :
      (issue : Option Issue) (kind : RefusalKind) (reason : String)
      → KeepsTables {F = F} (release_to a clock issue kind reason)
  unfolding release_to
  release_to-Keeps none kind reason = λ u. refl
  release_to-Keeps (some issue) kind reason = handle_refusal-Keeps a clock issue kind reason

  abbrev Waiting : Tables → Type 0
  Waiting = IsFree settings.max_concurrent_agents entry.issue_id

  abbrev Kept : Tables → Type 0
  Kept = IsValid settings.max_concurrent_agents

  wait_with-Moves :
      (kind : RefusalKind) (reason : String) (wait : Option RetryKind) (issue : Option Issue)
      → Moves {F = F} Waiting Kept (wait_with a clock settings entry kind reason wait issue)
  unfolding wait_with
  wait_with-Moves kind reason none issue =
      keeps-Moves Waiting Kept (release_to a clock issue kind reason)
        (release_to-Keeps issue kind reason) (λ t p. p.0)
  wait_with-Moves kind reason (some wait) issue =
      requeue-Moves settings.max_concurrent_agents clock entry settings.interval_ms reason wait

  put_back-Moves : Moves {F = F} {S = S} {G = G} Waiting Kept (update (put_back entry))
  unfolding update put_back
  put_back-Moves u p =
      set_retry-IsValid settings.max_concurrent_agents (tables u) entry.issue_id entry p

  wait_or_release-Moves :
      (kind : RefusalKind) (reason : String) (wait : Option RetryKind) (issue : Option Issue)
      → Moves {F = F} Waiting Kept (wait_or_release a clock settings entry kind reason wait issue)
  unfolding wait_or_release
  wait_or_release-Moves RefusalKind.stopping reason wait issue = put_back-Moves
  wait_or_release-Moves kind reason wait issue = wait_with-Moves kind reason wait issue

  fire_admitted-Moves :
      (issue : Issue) (w : Worker F) (asked : Admission F)
      → admit_issue_of settings w issue.identifier issue.id (some issue) work none ≡ asked
      → Waiting (w.running, w.retries)
      → (R : Tables → Type 0) × R (w.running, w.retries)
        × Moves R Kept (fire_admitted a workspaces accounts settings clock start entry issue asked)
  unfolding fire_admitted
  fire_admitted-Moves issue w (refused kind reason wait) h p =
      (Waiting, p, wait_or_release-Moves kind reason wait (some issue))
  fire_admitted-Moves issue w (admitted n ledger) h p =
      let limit = settings.max_concurrent_agents in
      (
        IsReady limit entry.issue_id,
        (p, admitted-room settings w issue.identifier issue.id (some issue) work none n ledger h),
        after-Moves (IsReady limit entry.issue_id) Kept (bind_account accounts issue)
            (fire_bound a workspaces accounts settings clock start entry issue n) (λ t p. p.0.0)
            (bind_account-Keeps accounts issue)
            (fire_bound-Moves a workspaces accounts settings clock start entry issue n),
      )

  fire_open-Moves :
      (issue : Issue)
      → Moves {F = F} Waiting Kept
          (fire_open a workspaces accounts settings clock start entry issue)
  unfolding fire_open
  fire_open-Moves issue =
      inspect-Moves Waiting Kept
        (λ w.
          fire_admitted a workspaces accounts settings clock start entry issue
            (admit_issue_of settings w issue.identifier issue.id (some issue) work none))
        (λ w p. fire_admitted-Moves issue w _ refl p)

  fire_refreshed-Moves :
      (found : Result (List Issue))
      → Moves {F = F} Waiting Kept
          (fire_refreshed a workspaces accounts settings clock start entry found)
  unfolding fire_refreshed
  fire_refreshed-Moves (err e) =
      requeue-Moves settings.max_concurrent_agents clock entry settings.interval_ms
        ("retry refresh failed: " <> e.message) entry.kind
  fire_refreshed-Moves (ok []) = λ u p. p.0
  fire_refreshed-Moves (ok (issue ∷ _)) =
      if-Moves Waiting Kept (opened issue.github_state)
        (fire_open a workspaces accounts settings clock start entry issue)
        (finish a workspaces issue >> pure tt) (fire_open-Moves issue)
        (keeps-Moves Waiting Kept (finish a workspaces issue >> pure tt)
          (then_return-Keeps (finish a workspaces issue) tt (finish-Keeps a workspaces issue))
          (λ t p. p.0))

  fire_asked-Moves :
      (asked : Admission F)
      → Moves {F = F} Waiting Kept
          (fire_asked a workspaces accounts settings clock start entry asked)
  unfolding fire_asked
  fire_asked-Moves (refused kind reason wait) = wait_or_release-Moves kind reason wait none
  fire_asked-Moves (admitted n ledger) =
      let fetch = outside (a.fetch_issues_by_ids (entry.issue_id ∷ [])) in
      after-Moves Waiting Kept (attempt fetch)
        (fire_refreshed a workspaces accounts settings clock start entry) (λ t p. p.0)
        (attempt-Keeps tables fetch (outside-Keeps (a.fetch_issues_by_ids (entry.issue_id ∷ []))))
        fire_refreshed-Moves

  fire_run-Moves :
      Moves {F = F} Waiting Kept (fire_run a workspaces accounts settings clock start entry)
  unfolding fire_run
  fire_run-Moves =
      inspect-Moves Waiting Kept
        (λ w.
          fire_asked a workspaces accounts settings clock start entry
            (admit_issue_of settings w entry.identifier entry.issue_id none work none))
        (λ w p. (
          Waiting,
          p,
          fire_asked-Moves
              (admit_issue_of settings w entry.identifier entry.issue_id none work none),
        ))

  fire_as-Moves :
      (escape : Option BlockedContext)
      → Moves {F = F} Waiting Kept (fire_as a workspaces accounts settings clock start entry escape)
  unfolding fire_as
  fire_as-Moves none = fire_run-Moves
  fire_as-Moves (some context) =
      if-Moves Waiting Kept (is_escape entry.kind)
        (fire_escape a workspaces accounts settings clock start entry context)
        (fire_run a workspaces accounts settings clock start entry)
        (fire_escape-Moves a workspaces accounts settings clock start entry context) fire_run-Moves

  pub fire-Moves :
      Moves {F = F} Waiting Kept (fire a workspaces accounts settings clock start entry)
  unfolding fire
  fire-Moves = fire_as-Moves entry.escape

waits-IsFree :
    (limit : ℕ) (t : Tables) (entry : RetryEntry)
    → still_waits t.1 entry ≡ true
    → IsValid limit t
    → IsFree limit entry.issue_id (t.0, remove t.1 entry.issue_id)
unfolding still_waits
waits-IsFree limit t entry h v =
    (remove_retry-IsValid limit t entry.issue_id v, ground (arith, v.apart entry.issue_id))

module _ {F : Type 0} ⦃f : Float F⦄ {S G : Type 0} (a : GitHubAdapter (World S G))
    (workspaces : Workspaces (World S G)) (accounts : Accounts (World S G)) (settings : Settings F)
    (clock : Clock) (start : RetryEntry → Start) where
  fire_taken-IsValid :
      (entry : RetryEntry) (u : Orch F S G)
      → still_waits u.0.retries entry ≡ true
      → IsValid settings.max_concurrent_agents (tables u)
      → IsValid settings.max_concurrent_agents (
          tables
            ((update (take_retry entry)
                >> fire a workspaces accounts settings clock (start entry) entry)
              u).1)
  unfolding update take_retry
  fire_taken-IsValid entry u h v =
      fire-Moves a workspaces accounts settings clock (start entry) entry
        (take_retry entry u.0, u.1)
        (waits-IsFree settings.max_concurrent_agents (tables u) entry h v)

  fire_if_waiting-IsValid :
      (entry : RetryEntry) (u : Orch F S G)
      → IsValid settings.max_concurrent_agents (tables u)
      → IsValid settings.max_concurrent_agents
          (tables (fire_if_waiting a workspaces accounts settings clock start entry u.0 u).1)
  unfolding fire_if_waiting
  fire_if_waiting-IsValid entry u v =
      branch-Moves (IsValid settings.max_concurrent_agents) (still_waits u.0.retries entry)
        (update (take_retry entry) >> fire a workspaces accounts settings clock (start entry) entry)
        (pure tt) u (λ h. fire_taken-IsValid entry u h v) (λ _. v)

  fire_all-Moves :
      (entries : List RetryEntry)
      → Moves {F = F}
          (IsValid settings.max_concurrent_agents)
          (IsValid settings.max_concurrent_agents)
          (fire_all a workspaces accounts settings clock start entries)
  unfolding fire_all
  fire_all-Moves [] = λ u v. v
  fire_all-Moves (entry ∷ entries) =
      let V = IsValid settings.max_concurrent_agents in
      let rest = fire_all a workspaces accounts settings clock start entries in
      let one = fire_if_waiting a workspaces accounts settings clock start entry in
      look-Moves V V (λ w. if w.stopping then pure tt else (one w >> rest))
        (λ u v.
          branch-Moves V u.0.stopping (pure tt) (one u.0 >> rest) u (λ _. v)
            (λ _.
              continue-Moves V V (one u.0 u).0 (λ _. rest) (one u.0 u).1 (λ t q. q)
                (λ _. fire_all-Moves entries) (fire_if_waiting-IsValid entry u v)))

  -- Whatever GitHub and the account pool answer, a tick's retries leave at most
  -- `max_concurrent_agents` runs, each under its own issue, and no issue both running and waiting.
  pub fire_due_retries-IsValid :
      (u : Orch F S G)
      → IsValid settings.max_concurrent_agents (tables u)
      → IsValid settings.max_concurrent_agents
          (tables (fire_due_retries a workspaces accounts settings clock start u).1)
  unfolding fire_due_retries
  fire_due_retries-IsValid =
      let V = IsValid settings.max_concurrent_agents in
      look-Moves V V
        (λ w.
          fire_all a workspaces accounts settings clock start (due_retries clock.mono w.retries))
        (λ u v. fire_all-Moves (due_retries clock.mono u.0.retries) u v)
