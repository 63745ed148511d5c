-- ===== src/Orchestrator/Runtime/Snapshots.antt =====
-- What a claim makes of an issue, what a poll observes and what a stop records, in
-- orchestrator/state.py.
use issuebot.Prelude.{
  ℕ, ◌+◌, ◌≤◌, String, Option, none, some, List, [], ◌∷◌, ◌++◌, Bool, true, false, not, ◌&&◌, ◌||◌,
  any, filter, in_strs, str_eq, str_eq_iff, ◌≡◌, refl, ◌↔◌, ◌⊎◌, arith, if◌then◌else◌,
}
use issuebot.Prelude.Text.{lower}
use issuebot.Config.{GitHubLabels, as_tuple, claim_clears}
use issuebot.GitHub.Models.{in_progress, LinkedPr, Issue, opened, is_open}
use issuebot.Events.{Event, state_changed, pr_opened}
use issuebot.Orchestrator.Runtime.{
  dropped_names, claimed_snapshot, state_label_name, same_label, label_moves, new_pr,
  observe_transition, RunningEntry, StopCause, stop,
}

in_strs-append :
    (s : String) (xs ys : List String) → in_strs s (xs ++ ys) ≡ (in_strs s xs || in_strs s ys)
unfolding in_strs any
in_strs-append s [] ys = refl
in_strs-append s (x ∷ xs) ys = ground (arith, in_strs-append s xs ys)

in_strs-filter :
    (p : String → Bool) (s : String) (xs : List String)
    → in_strs s (filter p xs) ≡ (p s && in_strs s xs)
unfolding in_strs any filter
in_strs-filter p s [] = ground arith
in_strs-filter p s (x ∷ xs) = ground (arith, in_strs-filter p s xs, str_eq_iff x s)

in_strs_one : (s t : String) → in_strs s (t ∷ []) ≡ str_eq t s
unfolding in_strs any
in_strs_one s t = ground arith

claimed_labels :
    (issue : Issue) (labels : GitHubLabels) (clear_markers : Bool) (name : String)
    → in_strs name (claimed_snapshot issue labels clear_markers).labels ≡ (
        str_eq (lower labels.in_progress) name
        || not (in_strs (lower name) (dropped_names labels clear_markers))
          && in_strs name issue.labels)
unfolding claimed_snapshot
claimed_labels issue labels clear_markers name =
    let target = lower labels.in_progress in
    let stays = λ (n : String). not (in_strs (lower n) (dropped_names labels clear_markers)) in
    ground (
      arith,
      in_strs-append name (filter stays issue.labels) (target ∷ []),
      in_strs-filter stays name issue.labels,
      in_strs_one name target,
    )

claimed_snapshot-state :
    (issue : Issue) (labels : GitHubLabels) (clear_markers : Bool)
    → ((claimed_snapshot issue labels clear_markers).state ≡ some in_progress)
      × (state_label_name (claimed_snapshot issue labels clear_markers)
          ≡ some (lower labels.in_progress))
      × ((claimed_snapshot issue labels clear_markers).dispatchable ≡ opened issue.github_state)
unfolding claimed_snapshot state_label_name
claimed_snapshot-state issue labels clear_markers = (refl, refl, refl)

-- The names that a claim may take off, as they stand in the settings: the five states, and on a claim
-- that clears markers the no-fault marker and the triage marker of `todo`.
abbrev pub IsTakenOff : GitHubLabels → Bool → String → Type 0
IsTakenOff l clear_markers name =
    (name ≡ lower l.todo)
    ⊎ (name ≡ lower l.in_progress)
    ⊎ (name ≡ lower l.review)
    ⊎ (name ≡ lower l.rework)
    ⊎ (name ≡ lower l.complete)
    ⊎ (clear_markers ≡ true) × ((name ≡ lower l.no_fault) ⊎ (name ≡ lower l.triage_todo))

dropped_names_iff :
    (l : GitHubLabels) (clear_markers : Bool) (name : String)
    → (in_strs name (dropped_names l clear_markers) ≡ true) ↔ IsTakenOff l clear_markers name
unfolding dropped_names as_tuple claim_clears in_strs any
dropped_names_iff l true name = ground (
  arith,
  str_eq_iff (lower l.todo) name,
  str_eq_iff (lower l.in_progress) name,
  str_eq_iff (lower l.review) name,
  str_eq_iff (lower l.rework) name,
  str_eq_iff (lower l.complete) name,
  str_eq_iff (lower l.no_fault) name,
  str_eq_iff (lower l.triage_todo) name,
)
dropped_names_iff l false name = ground (
  arith,
  str_eq_iff (lower l.todo) name,
  str_eq_iff (lower l.in_progress) name,
  str_eq_iff (lower l.review) name,
  str_eq_iff (lower l.rework) name,
  str_eq_iff (lower l.complete) name,
)

-- After a claim an issue is in progress, may be dispatched exactly when it is open, and has the name of
-- `in_progress` as its state label. It wears that name; no other name that the claim takes off; and of
-- the names that stay, exactly those that it wore.
pub in_strs-claimed_snapshot :
    (issue : Issue) (labels : GitHubLabels) (clear_markers : Bool) (name : String)
    → let claimed = claimed_snapshot issue labels clear_markers in
      (claimed.state ≡ some in_progress)
      × (state_label_name claimed ≡ some (lower labels.in_progress))
      × ((claimed.dispatchable ≡ true) ↔ (issue.github_state ≡ is_open))
      × ((in_strs name claimed.labels ≡ true) ↔ (
          (name ≡ lower labels.in_progress)
          ⊎ (in_strs name issue.labels ≡ true) × ¬ IsTakenOff labels clear_markers (lower name)))
unfolding opened
in_strs-claimed_snapshot issue labels clear_markers name =
    let (state, label, is_ready) = claimed_snapshot-state issue labels clear_markers in
    (
      state,
      label,
      ground (arith, is_ready),
      ground (
        arith,
        claimed_labels issue labels clear_markers name,
        dropped_names_iff labels clear_markers (lower name),
        str_eq_iff (lower labels.in_progress) name,
      ),
    )

-- The cause that is there, or else this one.
unfoldable pub or_else : Option StopCause → StopCause → StopCause
or_else none cause = cause
or_else (some c) _ = c

-- Of the causes of a stop only the first is kept, with its detail, and every stop cancels the run.
pub stop-stop :
    (entry : RunningEntry) (first second : StopCause) (detail detail' : String)
    → (stop (stop entry first detail) second detail' ≡ stop entry first detail)
      × ((stop entry first detail).cancel ≡ true)
      × ((stop entry first detail).stop_cause ≡ some (or_else entry.stop_cause first))
unfolding stop or_else
stop-stop entry first second detail detail' = ground arith

-- How many moves of the state label, and how many new pull requests, a list of events reports.
unfoldable pub reported_moves : List Event → ℕ
reported_moves [] = 0
reported_moves (state_changed e ∷ es) = reported_moves es + 1
reported_moves (_ ∷ es) = reported_moves es

unfoldable pub reported_prs : List Event → ℕ
reported_prs [] = 0
reported_prs (pr_opened e ∷ es) = reported_prs es + 1
reported_prs (_ ∷ es) = reported_prs es

unfoldable pub is_some {ℓ} : {A : Type ℓ} → Option A → Bool
is_some none = false
is_some (some _) = true

same_label_iff : (a b : Option String) → (same_label a b ≡ true) ↔ (a ≡ b)
unfolding same_label
same_label_iff none none = (λ h. refl, λ h. refl)
same_label_iff none (some b) = ground arith
same_label_iff (some a) none = ground arith
same_label_iff (some a) (some b) = ground (arith, str_eq_iff a b)

observe_parts :
    (previous current : Issue)
    → observe_transition previous current
      ≡ label_moves previous current ++ new_pr current previous.linked_pr current.linked_pr
unfolding observe_transition
observe_parts previous current = refl

label_moves-reports :
    (previous current : Issue)
    → let same = same_label (state_label_name previous) (state_label_name current) in
      let moves = label_moves previous current in
      (reported_moves moves ≡ (if same then 0 else 1)) × (reported_prs moves ≡ 0)
unfolding label_moves reported_moves reported_prs
label_moves-reports previous current = ground arith

new_pr-reports :
    (current : Issue) (before_pr after_pr : Option LinkedPr)
    → (reported_moves (new_pr current before_pr after_pr) ≡ 0)
      × (reported_prs (new_pr current before_pr after_pr)
          ≡ (if not (is_some before_pr) && is_some after_pr then 1 else 0))
unfolding new_pr reported_moves reported_prs is_some
new_pr-reports current none none = (refl, refl)
new_pr-reports current none (some pr) = (refl, refl)
new_pr-reports current (some pr) none = (refl, refl)
new_pr-reports current (some pr) (some pr') = (refl, refl)

reported-append :
    (es fs : List Event)
    → (reported_moves (es ++ fs) ≡ reported_moves es + reported_moves fs)
      × (reported_prs (es ++ fs) ≡ reported_prs es + reported_prs fs)
unfolding reported_moves reported_prs
reported-append [] fs = (omega arith, omega arith)
reported-append (e ∷ es) fs = ground (arith, reported-append es fs)

-- A poll reports at most one move, and one exactly when the name of the state label has changed; it
-- reports a pull request exactly when there was none before and there is one now.
pub observe_transition-reports :
    (previous current : Issue)
    → (reported_moves (observe_transition previous current) ≤ 1)
      × ((reported_moves (observe_transition previous current) ≡ 0)
          ↔ (state_label_name previous ≡ state_label_name current))
      × (reported_prs (observe_transition previous current)
          ≡ (if not (is_some previous.linked_pr) && is_some current.linked_pr then 1 else 0))
observe_transition-reports previous current =
    let moves = label_moves previous current in
    let prs = new_pr current previous.linked_pr current.linked_pr in
    let split : observe_transition previous current ≡ moves ++ prs =
      observe_parts previous current in
    rw split (
      ground (
        arith,
        reported-append moves prs,
        label_moves-reports previous current,
        new_pr-reports current previous.linked_pr current.linked_pr,
        same_label_iff (state_label_name previous) (state_label_name current),
      ))
