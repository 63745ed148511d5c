-- ===== src/Orchestrator/Actions/Due.antt =====
-- Which outcome `finish_terminal` of orchestrator/actions.py gives a closed issue.
use issuebot.Prelude.{Bool, ◌≢◌, ◌⊎◌, some, true, false, ◌≡◌, refl, Bool-cases, inl, inr}
use issuebot.GitHub.Models.{Issue, StateLabel}
use issuebot.GitHub.State.{ClosedOutcome, classify_closed, same_state}
use issuebot.GitHub.State.Outcomes.{
  IsMerged, IsMarked, IsOutcome, classify_closed-IsOutcome, same_state_iff,
}
use issuebot.GitHub.Adapter.{
  Result, GitHubError, ok, err, continue, GitHubAdapter, pure, attempt, ◌>>◌,
}
use issuebot.Events.{Event}
use issuebot.Orchestrator.Filing.Apply.{announce}
use issuebot.Orchestrator.Actions.{World}
use issuebot.Orchestrator.Actions.Finish.{
  FinishOutcome, complete, no_change, cancelled, unchanged, failed, Workspaces, finish_outcome,
  rest_in_complete, take_off, finish_try, finish_result, finish_as, finish_labels, remove_workspace,
}

is_apart : {b : Bool} → b ≡ false → b ≢ true
is_apart h e = cc

module _ {S G : Type 0} (a : GitHubAdapter (World S G)) (issue : Issue) where
  -- GitHub refuses to set the issue to `complete` or to clear its state.
  abbrev pub IsRefused : World S G → Type 0
  IsRefused w =
      (error : GitHubError) × (((a.set_state issue.number StateLabel.complete false w).0
          ≡ err error)
        ⊎ ((a.clear_state issue.number w).0 ≡ err error))

  -- What makes the issue end so, of the issue as it was read, and for a failure of GitHub.
  abbrev pub IsDue : World S G → Result FinishOutcome → Type 0
  IsDue w (ok complete) = (issue.state ≢ some StateLabel.complete) × IsMerged issue
  IsDue w (ok no_change) =
      (issue.state ≢ some StateLabel.complete) × ¬ IsMerged issue × IsMarked issue a.labels
  IsDue w (ok cancelled) =
      (issue.state ≢ some StateLabel.complete) × ¬ IsMerged issue × ¬ IsMarked issue a.labels
  IsDue w (ok unchanged) = issue.state ≡ some StateLabel.complete
  IsDue w (ok failed) = (issue.state ≢ some StateLabel.complete) × IsRefused w
  IsDue w (err _) = ⊥

  then_two-err :
      (first second : Event) (r : Result (Unit {0})) (v : World S G) (error : GitHubError)
      → (continue r (λ _. announce first >> announce second) v).0 ≡ err error
      → r ≡ err error
  unfolding announce
  then_two-err first second (ok tt) v error h = cc
  then_two-err first second (err _) v error h = h

  finish_try-IsRefused :
      (outcome : ClosedOutcome) (w : World S G) (error : GitHubError)
      → (finish_try a issue outcome w).0 ≡ err error
      → IsRefused w
  unfolding finish_try rest_in_complete take_off
  finish_try-IsRefused ClosedOutcome.completed w error h =
      let set = a.set_state issue.number StateLabel.complete false w in
      (error, inl (then_two-err _ _ set.0 set.1 error h))
  finish_try-IsRefused ClosedOutcome.no_change w error h =
      let set = a.set_state issue.number StateLabel.complete false w in
      (error, inl (then_two-err _ _ set.0 set.1 error h))
  finish_try-IsRefused ClosedOutcome.cancelled w error h =
      let cleared = a.clear_state issue.number w in
      (error, inr (then_two-err _ _ cleared.0 cleared.1 error h))

  result-IsDue :
      (w : World S G) (outcome : ClosedOutcome) (r : Result (Unit {0}))
      → issue.state ≢ some StateLabel.complete
      → IsOutcome issue a.labels outcome
      → ((error : GitHubError) → r ≡ err error → IsRefused w)
      → IsDue w (ok (finish_result outcome r))
  unfolding finish_result finish_outcome
  result-IsDue w ClosedOutcome.completed (ok _) n h refused = (n, h)
  result-IsDue w ClosedOutcome.no_change (ok _) n h refused = (n, h.0, h.1)
  result-IsDue w ClosedOutcome.cancelled (ok _) n h refused = (n, h.0, h.1)
  result-IsDue w outcome (err error) n h refused = (n, refused error refl)

  pub finish_labels-IsDue : (w : World S G) → IsDue w (finish_labels a issue w).0
  unfolding finish_labels finish_as attempt
  finish_labels-IsDue w =
      let complete_iff = same_state_iff issue.state (some StateLabel.complete) in
      elim (Bool-cases (same_state issue.state (some StateLabel.complete)))
        as (λ _. IsDue w (finish_labels a issue w).0) [
          | inl h ↦ rw h (complete_iff.0 h)
          | inr h ↦
              let outcome = classify_closed issue a.labels in
              let other : issue.state ≢ some StateLabel.complete =
                λ e. is_apart h (complete_iff.1 e) in
              rw h (
                result-IsDue w outcome (finish_try a issue outcome w).0 other
                  (classify_closed-IsOutcome issue a.labels) (finish_try-IsRefused outcome w))
        ]

  module _ (workspaces : Workspaces (World S G)) where
    pub removed-IsDue :
        (w : World S G) (r : Result FinishOutcome) (v : World S G)
        → IsDue w r
        → IsDue w
            (continue r
              (λ outcome. remove_workspace workspaces issue.identifier >> pure outcome)
              v).0
    unfolding remove_workspace
    removed-IsDue w (ok outcome) v h = h
    removed-IsDue w (err _) v h = h
