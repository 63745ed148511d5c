-- ===== src/Orchestrator/Approval/Assess.antt =====
-- `assess` of orchestrator/approval.py is justified by the evidence, whatever its answer.
use issuebot.Prelude.{
  ◌≤◌, String, some, List, [], ◌∷◌, Bool, true, false, ◌≡◌, refl, inl, inr, All, In, All-map, find,
  find-none, find-some, filter, Option-cases, Bool-cases, arith,
}
use issuebot.Prelude.Text.{lower}
use issuebot.Prelude.Sort.{IsOrder, sort, max_by, max_by-IsGreatest, All-unsort, In-sort}
use issuebot.GitHub.Models.{LabelApplied, TextEdit, ApprovalEvidence}
use issuebot.Orchestrator.Approval.{
  edited_by, named_labels, may_approve, earlier_label, earlier_edit, undoes, assess_edits,
  assess_candidates, assess,
}
use issuebot.Orchestrator.Approval.Spec.{counts, IsLatest, Justified}

abbrev pub candidates : String → String → Bool → List LabelApplied → List (String × LabelApplied)
candidates todo_label own flag events =
    filter (may_approve flag (lower own)) (named_labels (lower todo_label) events)

earlier_label-IsOrder : IsOrder earlier_label
unfolding earlier_label
earlier_label-IsOrder = record { total = λ x y h. ground arith; trans = λ x y z h k. ground arith }

earlier_edit-IsOrder : IsOrder earlier_edit
unfolding earlier_edit
earlier_edit-IsOrder = record { total = λ x y h. ground arith; trans = λ x y z h k. ground arith }

earlier_label-le : (x m : String × LabelApplied) → earlier_label x m ≡ true → x.1.at ≤ m.1.at
unfolding earlier_label
earlier_label-le x m h = ground arith

passed_over :
    (who : String) (event : LabelApplied) (edit : TextEdit)
    → undoes who event edit ≡ false
    → event.at ≤ edit.at
    → edited_by who edit ≡ true
unfolding undoes
passed_over who event edit h late = ground arith

undoes-parts :
    (who : String) (event : LabelApplied) (edit : TextEdit)
    → undoes who event edit ≡ true
    → (event.at ≤ edit.at) × (edited_by who edit ≡ false)
unfolding undoes
undoes-parts who event edit h = ground arith

-- `candidates` and what counts, for one account and one label.
module _ (todo_label own : String) (flag : Bool) where
  unfoldable pub count : LabelApplied → Bool
  count = counts todo_label own flag

  unfoldable pub kept : List LabelApplied → List (String × LabelApplied)
  kept = candidates todo_label own flag

  pub count-actor :
      (event : LabelApplied) → count event ≡ true → (a : String) × (event.actor ≡ some a)
  unfolding count counts
  count-actor event h = ground arith

  pub kept_counted :
      (event : LabelApplied) (events : List LabelApplied) (a : String)
      → event.actor ≡ some a
      → count event ≡ true
      → kept (event ∷ events) ≡ (a, event) ∷ kept events
  unfolding kept count counts named_labels filter may_approve
  kept_counted event events a p h = ground arith

  pub kept_other :
      (event : LabelApplied) (events : List LabelApplied)
      → count event ≡ false
      → kept (event ∷ events) ≡ kept events
  unfolding kept count counts named_labels filter may_approve
  kept_other event events h = ground arith

  kept_nil : kept [] ≡ []
  unfolding kept named_labels filter
  kept_nil = refl

  abbrev pub Fits : List LabelApplied → String × LabelApplied → Type 0
  Fits events c = In c.1 events × (c.1.actor ≡ some c.0) × (count c.1 ≡ true)

  pub In-kept :
      (events : List LabelApplied) (c : String × LabelApplied) → In c (kept events) → Fits events c
  In-kept [] c i = elim (rw kept_nil at i) [ ]
  In-kept (event ∷ events) c i = elim (Bool-cases (count event)) [
    | inl t ↦
        let (a, p) = count-actor event t in
        elim (rw (kept_counted event events a p t) at i) [
          | inl e ↦ rw (← e) (inl refl, p, t)
          | inr j ↦ let (x, y, z) = In-kept events c j in (inr x, y, z)
        ]
    | inr n ↦
        let (x, y, z) = In-kept events c (rw (kept_other event events n) at i) in (inr x, y, z)
  ]

  -- What holds of every candidate holds of every event that counts.
  pub All-kept :
      (P : LabelApplied → Type 0) (events : List LabelApplied)
      → All (λ c. P c.1) (kept events)
      → All (λ e. count e ≡ true → P e) events
  All-kept P [] h = tt
  All-kept P (event ∷ events) h = elim (Bool-cases (count event)) [
    | inl t ↦
        let (a, p) = count-actor event t in
        let h' = rw (kept_counted event events a p t) at h in (λ _. h'.0, All-kept P events h'.1)
    | inr n ↦ (λ t. cc, All-kept P events (rw (kept_other event events n) at h))
  ]

  -- The latest candidate is the latest event that counts.
  max_by-IsLatest :
      (evidence : ApprovalEvidence) (c : String × LabelApplied) (cs : List (String × LabelApplied))
      → kept evidence.label_events ≡ c ∷ cs
      → let m = max_by earlier_label c cs in IsLatest evidence count m.1 m.0
  max_by-IsLatest evidence c cs e =
      let m = max_by earlier_label c cs in
      let (found, greatest) = max_by-IsGreatest earlier_label-IsOrder c cs in
      let (listed, actor, counted) = In-kept evidence.label_events m (rw e found) in
      record {
        listed = listed;
        actor = actor;
        counted = counted;
        latest =
            All-kept (λ x. x.at ≤ m.1.at) evidence.label_events
              (rw e (All-map _ _ (c ∷ cs) (λ x. earlier_label-le x m) greatest));
      }

  kept_none : (events : List LabelApplied) → kept events ≡ [] → All (λ e. count e ≡ false) events
  kept_none [] h = tt
  kept_none (event ∷ events) h = elim (Bool-cases (count event)) [
    | inl t ↦ let (a, p) = count-actor event t in cc (kept_counted event events a p t)
    | inr n ↦ (n, kept_none events (rw (kept_other event events n) at h))
  ]

  edits-Justified :
      (evidence : ApprovalEvidence) (who : String) (event : LabelApplied)
      → IsLatest evidence count event who
      → Justified evidence count (assess_edits evidence.edits who event)
  unfolding assess_edits
  edits-Justified evidence who event l =
      let edits = evidence.edits in
      elim (Option-cases (find (undoes who event) (sort earlier_edit edits))) [
        | inl nothing ↦
            rw (nothing, assess_edits)
              (
                event,
                l,
                refl,
                All-unsort _ earlier_edit edits (
                    All-map _ _ (sort earlier_edit edits) (passed_over who event)
                      (find-none (undoes who event) (sort earlier_edit edits) nothing)),
              )
        | inr (edit, found) ↦
            let (listed, undone) =
              find-some (undoes who event) (sort earlier_edit edits) edit found in
            let (late, other) = undoes-parts who event edit undone in
            rw (found, assess_edits) (who, l, In-sort earlier_edit edits edit listed, late, other)
      ]

  candidates-Justified :
      (evidence : ApprovalEvidence) (any_todo : Bool) (cs : List (String × LabelApplied))
      → kept evidence.label_events ≡ cs
      → Justified evidence count (assess_candidates evidence.edits todo_label own any_todo cs)
  unfolding assess_candidates
  candidates-Justified evidence any_todo [] e = kept_none evidence.label_events e
  candidates-Justified evidence any_todo (c ∷ cs) e =
      edits-Justified evidence (max_by earlier_label c cs).0 (max_by earlier_label c cs).1
        (max_by-IsLatest evidence c cs e)

-- Whatever `assess` answers, the evidence justifies it: an approval has the latest event that counts
-- and every edit at or after it by its approver; a refusal has no event that counts, or an edit at or
-- after the latest one by somebody else.
pub assess-Justified :
    (evidence : ApprovalEvidence) (todo_label own_login : String) (own_labels_approve : Bool)
    → Justified evidence
        (counts todo_label own_login own_labels_approve)
        (assess evidence todo_label own_login own_labels_approve)
unfolding assess count kept
assess-Justified evidence todo_label own_login own_labels_approve =
    candidates-Justified todo_label own_login own_labels_approve evidence _ _ refl
