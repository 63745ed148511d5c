-- ===== src/Orchestrator/Approval/Triage.antt =====
-- Rule 1 of orchestrator/approval.py together with authorship.
use issuebot.Prelude.{
  ℕ, ◌<◌, String, Option, none, some, List, [], ◌∷◌, Bool, true, not, ◌≡◌, refl, ap, ◌⊎◌, inl, inr,
  str_eq, str_eq_iff, All, In, All-map, All-map_In, find, find-none, filter, Option-cases,
  Bool-cases, arith,
}
use issuebot.Prelude.Text.{lower}
use issuebot.Prelude.Sort.{IsOrder, sort, max_by, max_by-IsGreatest, All-unsort}
use issuebot.GitHub.Models.{LabelApplied, TextEdit, ApprovalEvidence}
use issuebot.Orchestrator.Approval.{
  Assessment, approved, unapproved, edited_by, named_labels, may_approve, earlier_edit,
  is_maintainer, assess, assess_authored, assess_authorship, before_in_tie, prefer, triage_latest,
  triage_refused, assess_triage,
}
use issuebot.Orchestrator.Approval.Spec.{counts}
use issuebot.Orchestrator.Approval.Assess.{count, kept, In-kept, All-kept}

-- What authorship rests on: a maintainer who opened the issue and made every edit since, and a latest
-- triage label that nobody but issuebot applied.
pub record IsAuthored (evidence : ApprovalEvidence) (triage_label own : String)
    (author association : Option String) (who : String) (at : ℕ) : Type 0 where
  pub opener : author ≡ some who
  pub maintainer : is_maintainer association ≡ true
  pub edits : All (λ edit. edited_by who edit ≡ true) evidence.edits
  pub event : LabelApplied
  pub actor : String
  pub listed : In event evidence.label_events
  pub applied : event.actor ≡ some actor
  pub own_account : lower actor ≡ lower own
  pub time : event.at ≡ at
  pub newest :
      All
        (λ e.
          counts triage_label own true e ≡ true
          → (a : String) → e.actor ≡ some a
          → (e.at < at) ⊎ (e.at ≡ at) × (lower a ≡ lower own))
        evidence.label_events

before_in_tie-IsOrder : (own : String) → IsOrder (before_in_tie own)
unfolding before_in_tie
before_in_tie-IsOrder own = record {
  total = λ x y h. ground arith;
  trans = λ x y z h k. ground arith;
}

filter-may_approve :
    (own : String) (cs : List (String × LabelApplied)) → filter (may_approve true own) cs ≡ cs
unfolding filter may_approve
filter-may_approve own [] = refl
filter-may_approve own (c ∷ cs) = rw (filter-may_approve own cs)

tie :
    (own : String) (c m : String × LabelApplied) (a : String)
    → before_in_tie (lower own) c m ≡ true
    → a ≡ c.0
    → lower m.0 ≡ lower own
    → (c.1.at < m.1.at) ⊎ (c.1.at ≡ m.1.at) × (lower a ≡ lower own)
unfolding before_in_tie
tie own c m a h q p =
    ground (arith, str_eq_iff (lower c.0) (lower own), str_eq_iff (lower m.0) (lower own))

prefer-approved :
    (authored verdict : Assessment) (who : String) (at : ℕ)
    → prefer authored verdict ≡ approved who at
    → (authored ≡ approved who at) ⊎ (verdict ≡ approved who at)
unfolding prefer
prefer-approved (approved w t) verdict who at h = inl h
prefer-approved (unapproved r e d) (approved w t) who at h = inl h
prefer-approved (unapproved r e d) (unapproved r' none d') who at h = inl h
prefer-approved (unapproved r e d) (unapproved r' (some e') d') who at h = inr h

module _ (triage_label own : String) where
  named-kept :
      (events : List LabelApplied)
      → kept triage_label own true events ≡ named_labels (lower triage_label) events
  unfolding kept
  named-kept events = filter-may_approve (lower own) (named_labels (lower triage_label) events)

  authored-approved :
      (edits : List TextEdit) (author who : String) (labelled : LabelApplied) (at : ℕ)
      → assess_authored edits author labelled ≡ approved who at
      → (author ≡ who) × (labelled.at ≡ at) × All (λ edit. edited_by author edit ≡ true) edits
  unfolding assess_authored
  authored-approved edits author who labelled at h =
      let p = λ (edit : TextEdit). not (edited_by author edit) in
      elim (Option-cases (find p (sort earlier_edit edits))) [
        | inl nothing ↦
            let h' = rw (nothing, assess_authored) at h in
            (
              ground arith,
              ground arith,
              All-unsort _ earlier_edit edits (
                  All-map _ _ (sort earlier_edit edits) (λ edit n. ground arith)
                    (find-none p (sort earlier_edit edits) nothing)),
            )
        | inr (edit, found) ↦ cc (rw (found, assess_authored) at h)
      ]

  authorship-approved :
      (evidence : ApprovalEvidence) (author association : Option String) (who : String)
      (labelled : LabelApplied) (at : ℕ)
      → assess_authorship evidence author association labelled ≡ approved who at
      → (author ≡ some who)
        × (is_maintainer association ≡ true)
        × (labelled.at ≡ at)
        × All (λ edit. edited_by who edit ≡ true) evidence.edits
  unfolding assess_authorship
  authorship-approved evidence none association who labelled at h = cc
  authorship-approved evidence (some a) association who labelled at h =
      elim (Bool-cases (is_maintainer association)) [
        | inl m ↦
            let (same, time, edits) =
              authored-approved evidence.edits a who labelled at (ground arith) in
            (ap some same, m, time, rw same at edits)
        | inr m ↦ absurd (ground arith)
      ]

  -- No named label is after the one that `max` finds, and in a tie it is a person's.
  newest_of :
      (events : List LabelApplied) (m : String × LabelApplied)
      → All (λ c. before_in_tie (lower own) c m ≡ true) (kept triage_label own true events)
      → lower m.0 ≡ lower own
      → All
          (λ e.
            count triage_label own true e ≡ true
            → (a : String) → e.actor ≡ some a
            → (e.at < m.1.at) ⊎ (e.at ≡ m.1.at) × (lower a ≡ lower own))
          events
  newest_of events m h p =
      All-kept triage_label own true
        (λ e.
          (a : String)
          → e.actor ≡ some a
          → (e.at < m.1.at) ⊎ (e.at ≡ m.1.at) × (lower a ≡ lower own))
        events
        (All-map_In _ _ (kept triage_label own true events)
          (λ c i b a q.
            tie own c m a b (ground (arith, (In-kept triage_label own true events c i).1)) p)
          h)

  IsAuthored-of :
      (evidence : ApprovalEvidence) (author association : Option String) (who : String) (at : ℕ)
      (m : String × LabelApplied)
      → In m (kept triage_label own true evidence.label_events)
      → All
          (λ d. before_in_tie (lower own) d m ≡ true)
          (kept triage_label own true evidence.label_events)
      → lower m.0 ≡ lower own
      → assess_authorship evidence author association m.1 ≡ approved who at
      → IsAuthored evidence triage_label own author association who at
  unfolding count
  IsAuthored-of evidence author association who at m found greatest p h =
      let (opener, maintainer, time, edits) =
        authorship-approved evidence author association who m.1 at h in
      let (listed, applied, counted) =
        In-kept triage_label own true evidence.label_events m found in
      record {
        opener = opener;
        maintainer = maintainer;
        edits = edits;
        event = m.1;
        actor = m.0;
        listed = listed;
        applied = applied;
        own_account = p;
        time = time;
        newest = rw (← time) (newest_of evidence.label_events m greatest p);
      }

  latest-approved :
      (evidence : ApprovalEvidence) (verdict : Assessment) (author association : Option String)
      (cs : List (String × LabelApplied)) (who : String) (at : ℕ)
      → kept triage_label own true evidence.label_events ≡ cs
      → triage_latest evidence verdict (lower own) author association cs ≡ approved who at
      → (verdict ≡ approved who at) ⊎ IsAuthored evidence triage_label own author association who at
  unfolding triage_latest
  latest-approved evidence verdict author association [] who at e h = inl h
  latest-approved evidence verdict author association (c ∷ cs) who at e h =
      let m = max_by (before_in_tie (lower own)) c cs in
      let (found, greatest) = max_by-IsGreatest (before_in_tie-IsOrder (lower own)) c cs in
      let found' : In m (kept triage_label own true evidence.label_events) = rw e found in
      let greatest' : All (λ d. before_in_tie (lower own) d m ≡ true)
          (kept triage_label own true evidence.label_events) =
        rw e greatest in
      elim (Bool-cases (str_eq (lower m.0) (lower own))) [
        | inl mine ↦
            let p = (str_eq_iff (lower m.0) (lower own)).0 mine in
            let h' = rw (mine, triage_latest) at h in
            elim (prefer-approved (assess_authorship evidence author association m.1) verdict who at
              h') [
                | inl a ↦
                    inr (IsAuthored-of evidence author association who at m found' greatest' p a)
                | inr v ↦ inl v
              ]
        | inr other ↦ inl (rw (other, triage_latest) at h)
      ]

  triage_refused-approved :
      (evidence : ApprovalEvidence) (verdict : Assessment) (author association : Option String)
      (who : String) (at : ℕ)
      → triage_refused evidence verdict triage_label own author association ≡ approved who at
      → (verdict ≡ approved who at) ⊎ IsAuthored evidence triage_label own author association who at
  unfolding triage_refused
  triage_refused-approved evidence (approved w t) author association who at h = inl h
  triage_refused-approved evidence (unapproved r e d) author association who at h =
      latest-approved evidence (unapproved r e d) author association _ who at
        (named-kept evidence.label_events) h

-- A triage or parent-review run is approved only where `assess` approves it, or by authorship: a
-- maintainer opened the issue and made every edit since, and the latest triage label is issuebot's
-- own, with no person's at the same time.
pub assess_triage-approved :
    (evidence : ApprovalEvidence) (triage_label own : String) (own_labels_approve : Bool)
    (author association : Option String) (who : String) (at : ℕ)
    → assess_triage evidence triage_label own own_labels_approve author association
      ≡ approved who at
    → (assess evidence triage_label own own_labels_approve ≡ approved who at)
      ⊎ IsAuthored evidence triage_label own author association who at
unfolding assess_triage
assess_triage-approved evidence triage_label own flag author association who at h =
    triage_refused-approved triage_label own evidence (assess evidence triage_label own flag) author
      association who at h
