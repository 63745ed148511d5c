-- ===== src/Orchestrator/Worker/Refreshed.antt =====
-- The refresh of the running entries and the stall check of orchestrator/orchestrator.py keep the two
-- tables valid: they change the entries in their places.
use issuebot.Prelude.{
  ℕ, String, Option, none, some, List, [], ◌∷◌, true, false, ◌≡◌, refl, arith, length,
  if◌then◌else◌, leb, str_eq_iff,
}
use issuebot.Prelude.Dict.{Dict, lookup, set, lookup-set}
use issuebot.Config.{GitHubLabels}
use issuebot.GitHub.Models.{Issue}
use issuebot.GitHub.Adapter.{Result, ok, err, attempt, GitHubAdapter, ◌>>=◌}
use issuebot.Orchestrator.Admission.Gate.{RunKind, work, triage, parent_review}
use issuebot.Orchestrator.Runtime.{RunningEntry, StopCause, stop}
use issuebot.Orchestrator.Actions.{World}
use issuebot.Orchestrator.Actions.Effects.{attempt-Keeps}
use issuebot.Orchestrator.Worker.{Worker, Clock, Settings}
use issuebot.Orchestrator.Worker.Endings.{announce_all}
use issuebot.Orchestrator.Worker.Reconcile.{
  check_stall, each_entry, refresh_kind, refresh_entry, by_id, all_events, refresh_all, ids_of,
  check_stalls, refresh_from, refresh_running,
}
use issuebot.Orchestrator.Worker.Effects.{outside, update}
use issuebot.Orchestrator.Worker.Tables.{Tables, tables, outside-Keeps}
use issuebot.Orchestrator.Worker.Moves.{IsValid, Moves, after-Moves, look-Moves}

-- Before and after, under one identifier: no entry comes or goes, and it keeps the issue's identifier.
abbrev IsKept : String → Option RunningEntry → Option RunningEntry → Type 0
IsKept id before now =
    (before ≡ none → now ≡ none)
    × ((entry : RunningEntry)
        → now ≡ some entry
        → (old : RunningEntry) × (before ≡ some old) × (old.issue.id ≡ id → entry.issue.id ≡ id))

abbrev changed : (RunningEntry → RunningEntry) → Option RunningEntry → Option RunningEntry
changed change none = none
changed change (some entry) = some (change entry)

changed-IsKept :
    (id : String) (change : RunningEntry → RunningEntry) (before : Option RunningEntry)
    → ((entry : RunningEntry) → entry.issue.id ≡ id → (change entry).issue.id ≡ id)
    → IsKept id before (changed change before)
changed-IsKept id change none h = ((λ e. e), λ entry e. ground (arith, e))
changed-IsKept id change (some old) h =
    ((λ e. ground (arith, e)), λ entry e. (old, refl, λ same. ground (arith, e, h old same)))

kept-IsValid :
    (limit : ℕ) (t : Tables) (now : Dict RunningEntry)
    → length now ≡ length t.0
    → ((id : String) → IsKept id (lookup t.0 id) (lookup now id))
    → IsValid limit t
    → IsValid limit (now, t.1)
kept-IsValid limit t now n k v = record {
  apart = λ id. ground (arith, v.apart id, (k id).0);
  keyed = λ id entry h. let (old, found, same) = (k id).1 entry h in same (v.keyed id old found);
  bounded = omega (arith, n, v.bounded);
}

stop-id :
    (entry : RunningEntry) (cause : StopCause) (detail : String)
    → (stop entry cause detail).issue.id ≡ entry.issue.id
unfolding stop
stop-id entry cause detail = ground arith

check_stall-id :
    (timeout_ms mono : ℕ) (entry : RunningEntry)
    → (check_stall timeout_ms mono entry).issue.id ≡ entry.issue.id
unfolding check_stall stop
check_stall-id timeout_ms mono entry = ground arith

lookup-each_entry :
    (change : RunningEntry → RunningEntry) (d : Dict RunningEntry) (id : String)
    → lookup (each_entry change d) id ≡ changed change (lookup d id)
unfolding each_entry lookup
lookup-each_entry change [] id = refl
lookup-each_entry change ((j, w) ∷ d) id = ground (arith, lookup-each_entry change d id)

length-each_entry :
    (change : RunningEntry → RunningEntry) (d : Dict RunningEntry)
    → length (each_entry change d) ≡ length d
unfolding each_entry
length-each_entry change [] = refl
length-each_entry change ((j, w) ∷ d) = ground (arith, length-each_entry change d)

-- An issue that was fetched is under its own identifier.
abbrev IsOwn : Dict Issue → Type 0
IsOwn known = (id : String) (issue : Issue) → lookup known id ≡ some issue → issue.id ≡ id

no_issue-IsOwn : IsOwn []
unfolding lookup
no_issue-IsOwn id issue e = ground (arith, e)

by_id-IsOwn : (known : Dict Issue) (issues : List Issue) → IsOwn known → IsOwn (by_id known issues)
unfolding by_id
by_id-IsOwn known [] h = h
by_id-IsOwn known (issue ∷ issues) h = by_id-IsOwn (set known issue.id issue) issues (λ id other e.
    ground (arith, h id other, lookup-set known issue.id id issue, str_eq_iff issue.id id))

module _ (labels : GitHubLabels) (clock : Clock) (interval_ms : ℕ) where
  refresh_kind-id :
      (kind : RunKind) (entry : RunningEntry) (current : Issue)
      → (refresh_kind labels clock interval_ms kind entry current).issue.id ≡ entry.issue.id
  unfolding refresh_kind stop
  refresh_kind-id work entry current = ground arith
  refresh_kind-id triage entry current = ground arith
  refresh_kind-id parent_review entry current = ground arith

  refresh_entry-id :
      (id : String) (entry : RunningEntry) (found : Option Issue)
      → ((issue : Issue) → found ≡ some issue → issue.id ≡ id)
      → entry.issue.id ≡ id
      → (refresh_entry labels clock interval_ms entry found).issue.id ≡ id
  unfolding refresh_entry stop
  refresh_entry-id id entry none h e = ground (arith, e)
  refresh_entry-id id entry (some current) h e = ground (
    arith,
    h current refl,
    e,
    refresh_kind-id entry.kind (record entry { issue = current; terminal_issue = none }) current,
  )

  lookup-refresh_all :
      (known : Dict Issue) (d : Dict RunningEntry) (id : String)
      → lookup (refresh_all labels clock interval_ms known d) id
        ≡ changed
            (λ entry. refresh_entry labels clock interval_ms entry (lookup known id))
            (lookup d id)
  unfolding refresh_all lookup
  lookup-refresh_all known [] id = refl
  lookup-refresh_all known ((j, w) ∷ d) id =
      ground (arith, lookup-refresh_all known d id, str_eq_iff j id)

  length-refresh_all :
      (known : Dict Issue) (d : Dict RunningEntry)
      → length (refresh_all labels clock interval_ms known d) ≡ length d
  unfolding refresh_all
  length-refresh_all known [] = refl
  length-refresh_all known ((j, w) ∷ d) = ground (arith, length-refresh_all known d)

  refresh_all-IsValid :
      (limit : ℕ) (t : Tables) (known : Dict Issue)
      → IsOwn known
      → IsValid limit t
      → IsValid limit (refresh_all labels clock interval_ms known t.0, t.1)
  refresh_all-IsValid limit t known own =
      kept-IsValid limit t (refresh_all labels clock interval_ms known t.0)
        (length-refresh_all known t.0)
        (λ id. rw (lookup-refresh_all known t.0 id) (
          changed-IsKept id
            (λ entry. refresh_entry labels clock interval_ms entry (lookup known id))
            (lookup t.0 id) (λ entry. refresh_entry-id id entry (lookup known id) (own id))))

module _ {F : Type 0} (settings : Settings F) (clock : Clock) (limit : ℕ) where
  pub check_stalls-IsValid :
      (w : Worker F)
      → IsValid limit (w.running, w.retries)
      → IsValid limit
          ((check_stalls settings clock w).running, (check_stalls settings clock w).retries)
  unfolding check_stalls
  check_stalls-IsValid w v =
      let change = check_stall settings.stall_timeout_ms clock.mono in
      let kept =
        kept-IsValid limit (w.running, w.retries) (each_entry change w.running)
          (length-each_entry change w.running)
          (λ id. rw (lookup-each_entry change w.running id) (
            changed-IsKept id change (lookup w.running id) (λ entry e.
              ground (arith, e, check_stall-id settings.stall_timeout_ms clock.mono entry))))
          v in
      elim (leb settings.stall_timeout_ms 0)
        as (λ b. IsValid limit (
          (if b then w else record w { running = each_entry change w.running }).running,
          (if b then w else record w { running = each_entry change w.running }).retries,
        )) [ true ↦ v | false ↦ kept ]

  module _ {S G : Type 0} (a : GitHubAdapter (World S G)) where
    refresh_from-Moves :
        (running : Dict RunningEntry) (found : Result (List Issue))
        → Moves {F = F}
            (IsValid limit)
            (IsValid limit)
            (refresh_from settings clock a running found)
    unfolding refresh_from update
    refresh_from-Moves running (err e) = λ u v. v
    refresh_from-Moves running (ok issues) =
        let known = by_id [] issues in
        after-Moves (IsValid limit) (IsValid limit)
          (outside (announce_all (all_events known running)))
          (λ _. update (λ w. record w {
            running = refresh_all a.labels clock settings.interval_ms known w.running;
          }))
          (λ t q. q) (outside-Keeps (announce_all (all_events known running)))
          (λ _ u v.
            refresh_all-IsValid a.labels clock settings.interval_ms limit (tables u) known
              (by_id-IsOwn [] issues no_issue-IsOwn) v)

    pub refresh_running-Moves :
        Moves {F = F} (IsValid limit) (IsValid limit) (refresh_running settings clock a)
    unfolding refresh_running
    refresh_running-Moves =
        look-Moves (IsValid limit) (IsValid limit)
          (λ w.
            attempt (outside (a.fetch_issues_by_ids (ids_of w.running)))
            >>= refresh_from settings clock a w.running)
          (λ u v.
            let fetch = outside (a.fetch_issues_by_ids (ids_of u.0.running)) in
            after-Moves (IsValid limit) (IsValid limit) (attempt fetch)
              (refresh_from settings clock a u.0.running) (λ t q. q)
              (attempt-Keeps tables fetch
                (outside-Keeps (a.fetch_issues_by_ids (ids_of u.0.running))))
              (refresh_from-Moves u.0.running) u v)
