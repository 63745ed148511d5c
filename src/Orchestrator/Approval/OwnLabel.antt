-- ===== src/Orchestrator/Approval/OwnLabel.antt =====
-- Rule 1 of orchestrator/approval.py and issuebot's own label.
use issuebot.Prelude.{
  ℕ, String, some, List, [], ◌∷◌, ◌++◌, Bool, false, ◌≡◌, ◌↔◌, inl, inr, str_eq_iff, Bool-cases,
  arith,
}
use issuebot.Prelude.Text.{lower}
use issuebot.GitHub.Models.{LabelApplied, TextEdit, ApprovalEvidence}
use issuebot.Orchestrator.Approval.{approved, assess_candidates, assess}
use issuebot.Orchestrator.Approval.Spec.{counts}
use issuebot.Orchestrator.Approval.Assess.{count, count-actor, kept, kept_counted, kept_other}

-- The evidence with one more label event, the newest.
abbrev pub with_label : ApprovalEvidence → LabelApplied → ApprovalEvidence
with_label evidence event = record evidence { label_events = evidence.label_events ++ event ∷ [] }

module _ (todo_label own : String) where
  kept-snoc :
      (events : List LabelApplied) (event : LabelApplied)
      → count todo_label own false event ≡ false
      → kept todo_label own false (events ++ event ∷ []) ≡ kept todo_label own false events
  kept-snoc [] event h = kept_other todo_label own false event [] h
  kept-snoc (e ∷ events) event h = elim (Bool-cases (count todo_label own false e)) [
    | inl t ↦
        let (a, p) = count-actor todo_label own false e t in
        rw (
          kept_counted todo_label own false e (events ++ event ∷ []) a p t,
          kept_counted todo_label own false e events a p t,
          kept-snoc events event h,
        )
    | inr n ↦ rw (
      kept_other todo_label own false e (events ++ event ∷ []) n,
      kept_other todo_label own false e events n,
      kept-snoc events event h,
    )
  ]

  approved-any_todo :
      (edits : List TextEdit) (a b : Bool) (cs : List (String × LabelApplied)) (who : String)
      (at : ℕ)
      → assess_candidates edits todo_label own a cs ≡ approved who at
      → assess_candidates edits todo_label own b cs ≡ approved who at
  unfolding assess_candidates
  approved-any_todo edits a b [] who at h = cc
  approved-any_todo edits a b (c ∷ cs) who at h = h

  own_event :
      (event : LabelApplied) (actor : String)
      → event.actor ≡ some actor
      → lower actor ≡ lower own
      → count todo_label own false event ≡ false
  unfolding count counts
  own_event event actor p q = ground (arith, str_eq_iff (lower actor) (lower own))

  same_candidates :
      (evidence : ApprovalEvidence) (event : LabelApplied) (who : String) (at : ℕ)
      → count todo_label own false event ≡ false
      → (assess (with_label evidence event) todo_label own false ≡ approved who at)
        ↔ (assess evidence todo_label own false ≡ approved who at)
  unfolding assess kept
  same_candidates evidence event who at h = (
    λ e.
        approved-any_todo evidence.edits _ _ _ who at
          (rw (kept-snoc evidence.label_events event h) at e),
    λ e.
        rw (kept-snoc evidence.label_events event h)
          (approved-any_todo evidence.edits _ _ _ who at e),
  )

  -- Where issuebot's own labels do not approve, a label that its own account applies last changes
  -- neither whether the issue is approved, nor by whom or when: it launders no edit before it.
  pub assess-own_label :
      (evidence : ApprovalEvidence) (event : LabelApplied) (actor who : String) (at : ℕ)
      → event.actor ≡ some actor
      → lower actor ≡ lower own
      → (assess (with_label evidence event) todo_label own false ≡ approved who at)
        ↔ (assess evidence todo_label own false ≡ approved who at)
  assess-own_label evidence event actor who at p q =
      same_candidates evidence event who at (own_event event actor p q)
