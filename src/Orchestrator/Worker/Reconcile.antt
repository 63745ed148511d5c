-- ===== src/Orchestrator/Worker/Reconcile.antt =====
-- orchestrator/orchestrator.py: `_check_stalls` and `_refresh_running`, which stop runs that should not
-- go on.
use issuebot.Prelude.{
  ℕ, ◌+◌, ◌-◌, ◌/◌, ◌%◌, String, Option, none, some, List, [], ◌∷◌, ◌++◌, not, ◌&&◌, ◌||◌, ◌==◌,
  ltb, leb, in_strs, if◌then◌else◌,
}
use issuebot.Prelude.Dict.{Dict, lookup, set}
use issuebot.Prelude.Text.{◌<>◌, show, lower}
use issuebot.Config.{GitHubLabels}
use issuebot.GitHub.Models.{Issue, StateLabel, todo, in_progress, review, rework, complete, opened}
use issuebot.GitHub.State.{same_state}
use issuebot.GitHub.Adapter.{Result, ok, err, Exec, pure, attempt, GitHubAdapter, ◌>>=◌, ◌>>◌}
use issuebot.Events.{Event}
use issuebot.Orchestrator.Admission.Gate.{RunKind, work, triage, parent_review}
use issuebot.Orchestrator.Triage.{is_nil}
use issuebot.Orchestrator.Runtime.{RunningEntry, StopCause, stop, observe_transition}
use issuebot.Orchestrator.Actions.{World}
use issuebot.Orchestrator.Worker.{Settings, Clock, Worker}
use issuebot.Orchestrator.Worker.Endings.{announce_all}
use issuebot.Orchestrator.Worker.Effects.{Orch, outside, update, inspect}

-- `f"{ms / 1000:.0f}"`: half a second goes to the even neighbour.
unfoldable pub rounded_seconds : ℕ → ℕ
rounded_seconds ms =
    let whole = ms / 1000 in
    let rest = ms % 1000 in
    if ltb 500 rest || (rest == 500) && (whole % 2 == 1) then whole + 1 else whole

idle_since : RunningEntry → ℕ
idle_since entry = elim entry.last_activity_mono [ none ↦ entry.started_mono | some at ↦ at ]

unfoldable pub check_stall : ℕ → ℕ → RunningEntry → RunningEntry
unfolding idle_since rounded_seconds stop
check_stall timeout_ms mono entry = elim entry.stop_cause [
  | some _ ↦ entry
  | none ↦
      let elapsed = mono - idle_since entry in
      if ltb timeout_ms elapsed
      then stop entry StopCause.stalled
          ("no activity for " <> show (rounded_seconds elapsed) <> " s")
      else entry
]

-- The entries of a table, each changed in its place.
unfoldable pub each_entry : (RunningEntry → RunningEntry) → Dict RunningEntry → Dict RunningEntry
each_entry change [] = []
each_entry change ((id, entry) ∷ rest) = (id, change entry) ∷ each_entry change rest

state_name : Option StateLabel → String
state_name none = "unlabelled"
state_name (some todo) = "todo"
state_name (some in_progress) = "in_progress"
state_name (some review) = "review"
state_name (some rework) = "rework"
state_name (some complete) = "complete"

module _ (labels : GitHubLabels) (clock : Clock) (interval_ms : ℕ) where
  -- A state label wins over the triage track, and so does a human who takes the label off.
  refresh_triage : RunningEntry → Issue → RunningEntry
  unfolding stop is_nil lower in_strs
  refresh_triage entry current =
      if not (is_nil current.state_labels)
      then stop entry StopCause.state_moved "state label"
      else if not (in_strs (lower labels.triage_todo) current.labels)
      then stop entry StopCause.state_moved "triage-todo removed"
      else entry

  refresh_parent_review : RunningEntry → Issue → RunningEntry
  unfolding stop is_nil lower in_strs
  refresh_parent_review entry current =
      if not (is_nil current.state_labels)
      then stop entry StopCause.state_moved "state label"
      else if in_strs (lower labels.triage_todo) current.labels
          || in_strs (lower labels.triage_complete) current.labels
      then entry
      else stop entry StopCause.state_moved "triage labels removed"

  -- One poll interval after the first refresh that sees `review`, the run is stopped.
  unfoldable pub review_grace : RunningEntry → RunningEntry
  unfolding stop
  review_grace entry = elim entry.review_seen_mono [
    | none ↦ record entry { review_seen_mono = some clock.mono }
    | some seen ↦
        if leb interval_ms (clock.mono - seen)
        then stop entry StopCause.state_moved "review"
        else entry
  ]

  refresh_work : RunningEntry → Issue → RunningEntry
  unfolding same_state review_grace stop state_name
  refresh_work entry current =
      if same_state current.state (some in_progress) && current.dispatchable
      then entry
      else if same_state current.state (some review)
      then review_grace entry
      else stop entry StopCause.state_moved (state_name current.state)

  unfoldable pub refresh_kind : RunKind → RunningEntry → Issue → RunningEntry
  unfolding refresh_work refresh_triage refresh_parent_review
  refresh_kind work = refresh_work
  refresh_kind triage = refresh_triage
  refresh_kind parent_review = refresh_parent_review

  -- The entry after a refresh of its issue.
  unfoldable pub refresh_entry : RunningEntry → Option Issue → RunningEntry
  unfolding stop refresh_kind
  refresh_entry entry none = stop entry StopCause.missing "issue no longer found"
  refresh_entry entry (some current) =
      if opened current.github_state
      then refresh_kind entry.kind (record entry { issue = current; terminal_issue = none }) current
      else stop (record entry { terminal_issue = some current }) StopCause.issue_closed
          "issue closed"

-- What the refresh of an entry publishes.
unfoldable pub refresh_events : RunningEntry → Option Issue → List Event
unfolding observe_transition
refresh_events entry none = []
refresh_events entry (some current) =
    if opened current.github_state then observe_transition entry.issue current else []

-- `{issue.id: issue for issue in refreshed}`
unfoldable pub by_id : Dict Issue → List Issue → Dict Issue
by_id known [] = known
by_id known (issue ∷ issues) = by_id (set known issue.id issue) issues

unfoldable pub all_events : Dict Issue → Dict RunningEntry → List Event
unfolding refresh_events
all_events known [] = []
all_events known ((id, entry) ∷ rest) =
    refresh_events entry (lookup known id) ++ all_events known rest

unfoldable pub refresh_all :
    GitHubLabels → Clock → ℕ → Dict Issue → Dict RunningEntry → Dict RunningEntry
unfolding refresh_entry
refresh_all labels clock interval_ms known [] = []
refresh_all labels clock interval_ms known ((id, entry) ∷ rest) =
    (id, refresh_entry labels clock interval_ms entry (lookup known id))
    ∷ refresh_all labels clock interval_ms known rest

unfoldable pub ids_of : Dict RunningEntry → List String
ids_of [] = []
ids_of ((id, entry) ∷ rest) = id ∷ ids_of rest

module _ {F : Type 0} (settings : Settings F) (clock : Clock) where
  unfoldable pub check_stalls : Worker F → Worker F
  unfolding each_entry check_stall
  check_stalls w = if leb settings.stall_timeout_ms 0 then w else record w {
    running = each_entry (check_stall settings.stall_timeout_ms clock.mono) w.running;
  }

  module _ {S G : Type 0} (a : GitHubAdapter (World S G)) where
    unfoldable pub refresh_from :
        Dict RunningEntry → Result (List Issue) → Exec (Orch F S G) (Unit {0})
    unfolding outside announce_all all_events update refresh_all by_id
    refresh_from running (err e) = pure tt
    refresh_from running (ok issues) =
        outside (announce_all (all_events (by_id [] issues) running))
        >> update (λ w. record w {
          running = refresh_all a.labels clock settings.interval_ms (by_id [] issues) w.running;
        })

    unfoldable pub refresh_running : Exec (Orch F S G) (Unit {0})
    unfolding inspect outside attempt refresh_from ids_of
    refresh_running = do
      w ← inspect
      attempt (outside (a.fetch_issues_by_ids (ids_of w.running))) >>= refresh_from w.running
