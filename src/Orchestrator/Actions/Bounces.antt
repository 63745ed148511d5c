-- ===== src/Orchestrator/Actions/Bounces.antt =====
-- The bound on the conflict bounce of orchestrator/actions.py.
use issuebot.Prelude.{
  ℕ, suc, ◌+◌, max, ◌≤◌, Option, Bool, false, ◌≡◌, refl, arith, Bool-cases, Option-cases, sym, ◌∙◌,
  inl, inr, leb,
}
use issuebot.Prelude.Search.{contains}
use issuebot.GitHub.Models.{Instant, Issue, LinkedPr, Comment, StateLabel, rework}
use issuebot.GitHub.Adapter.{
  Result, ok, err, Exec, continue, pure, GitHubAdapter, attempt, ◌>>=◌, ◌>>◌,
}
use issuebot.Orchestrator.Filing.Apply.{announce}
use issuebot.Orchestrator.Actions.{World, conflict_limit_heading, conflict_block}
use issuebot.Orchestrator.Actions.Notes.{append_workpad}
use issuebot.Orchestrator.Actions.Conflict.{
  Bounce, answered, moved, limit_noted, limit_reached, reworked, at_limit, bounce_try,
  bounce_or_note, bounced, bounce_or_note, bounce_end, conflict_rework, workpad_text,
}
use issuebot.Orchestrator.Actions.Effects.{
  Keeps, Calls, continue-Keeps, if-Keeps, then_pure-Keeps, attempt-Keeps, append_workpad-Keeps,
}

module _ {S G : Type 0} (a : GitHubAdapter (World S G)) (bounces : ℕ → G → ℕ) where
  -- The label history: `count_own_label_additions` reads it, and a `set_state` adds at most one entry.
  pub record CountsBounces : Type 0 where
    pub calls : (number : ℕ) → Calls (λ w. bounces number w.1) a
    pub counted :
        (number k : ℕ) (w : World S G)
        → (a.count_own_label_additions number a.labels.rework w).0 ≡ ok k
        → k ≡ bounces number w.1
    pub adds :
        (number : ℕ) (state : StateLabel) (markers : Bool) (w : World S G)
        → bounces number (a.set_state number state markers w).1.1 ≤ suc (bounces number w.1)

  module _ (laws : CountsBounces) (issue : Issue) (pr : LinkedPr) (limit : ℕ) (now : Instant) where
    abbrev count : World S G → ℕ
    count w = bounces issue.number w.1

    at_limit-Keeps :
        (workpad : Option Comment) → Keeps count (at_limit a issue pr limit now workpad)
    unfolding at_limit
    at_limit-Keeps workpad =
        if-Keeps count (contains (workpad_text workpad) conflict_limit_heading)
          (pure (answered limit_noted)) _ (λ w. refl)
          (then_pure-Keeps count (append_workpad a issue.number workpad _) (answered limit_reached)
            (append_workpad-Keeps count a (laws.calls issue.number) issue.number workpad _))

    bounce_end-Keeps : (r : Result Bounce) → Keeps count (bounce_end a issue pr limit now r)
    unfolding bounce_end announce
    bounce_end-Keeps (err e) w = refl
    bounce_end-Keeps (ok (answered outcome)) w = refl
    bounce_end-Keeps (ok (moved k workpad)) w =
        let block = conflict_block pr.number (k + 1) limit now a.labels in
        let note = append_workpad a issue.number workpad block in
        then_pure-Keeps count (attempt note) reworked
          (attempt-Keeps count note
            (append_workpad-Keeps count a (laws.calls issue.number) issue.number workpad block))
          (announce (bounced issue pr a.labels.rework) w).1

    -- From `before` bounces it gets to the limit at most.
    IsBounded : ℕ → {A : Type 0} → Exec (World S G) A → Type 0
    IsBounded before m = (w : World S G) → count w ≡ before → count (m w).1 ≤ max limit before

    keeps-IsBounded :
        {A : Type 0} (before : ℕ) (m : Exec (World S G) A) → Keeps count m → IsBounded before m
    unfolding IsBounded
    keeps-IsBounded before m h w e = omega (arith, h w, e)

    continue-bounded :
        {A B : Type 0} (before : ℕ) (r : Result A) (f : A → Exec (World S G) B) (v : World S G)
        → count v ≡ before
        → ((x : A) → r ≡ ok x → IsBounded before (f x))
        → count (continue r f v).1 ≤ max limit before
    unfolding IsBounded
    continue-bounded before (ok x) f v e k = k x refl v e
    continue-bounded before (err _) f v e k = omega (arith, e)

    below_limit : (k : ℕ) → leb limit k ≡ false → suc k ≤ max limit k
    below_limit k h = ground arith

    bounce-IsBounded :
        (k : ℕ) (b : Bounce)
        → leb limit k ≡ false
        → IsBounded k (a.set_state issue.number rework false >> pure b)
    unfolding IsBounded
    bounce-IsBounded k b h w e =
        let done = a.set_state issue.number rework false w in
        omega (
          arith,
          continue-Keeps count done.0 (λ _. pure b) done.1 (λ _ u. refl),
          laws.adds issue.number rework false w,
          below_limit k h,
          e,
        )

    bounce_or_note-IsBounded :
        (k : ℕ) (workpad : Option Comment)
        → IsBounded k (bounce_or_note a issue pr limit now k workpad)
    unfolding bounce_or_note
    bounce_or_note-IsBounded k workpad =
        elim (Bool-cases (leb limit k))
          as (λ _. IsBounded k (bounce_or_note a issue pr limit now k workpad)) [
            | inl h ↦ rw h (keeps-IsBounded k _ (at_limit-Keeps workpad))
            | inr h ↦ rw h (bounce-IsBounded k (moved k workpad) h)
          ]

    counted-IsBounded :
        (w : World S G) (k : ℕ)
        → (a.count_own_label_additions issue.number a.labels.rework w).0 ≡ ok k
        → IsBounded
            (count w)
            (a.find_workpad_comment issue.number >>= bounce_or_note a issue pr limit now k)
    unfolding IsBounded
    counted-IsBounded w k e v h =
        let found = a.find_workpad_comment issue.number v in
        rw (← laws.counted issue.number k w e) (
          continue-bounded k found.0 (bounce_or_note a issue pr limit now k) found.1
            ((laws.calls issue.number).finds issue.number v
              ∙ h
              ∙ sym (laws.counted issue.number k w e))
            (λ workpad _. bounce_or_note-IsBounded k workpad))

    bounce_try-bounded :
        (w : World S G) → count (bounce_try a issue pr limit now w).1 ≤ max limit (count w)
    unfolding bounce_try
    bounce_try-bounded w =
        let asked = a.count_own_label_additions issue.number a.labels.rework w in
        continue-bounded (count w) asked.0 _ asked.1
          ((laws.calls issue.number).counts issue.number a.labels.rework w) (counted-IsBounded w)

  -- Where the label history counts every move to `rework` (`CountsBounces`), a bounce takes the
  -- issue's count of bounces up to the limit at most: a count that is at the limit
  -- or above it stays as it is.
  pub conflict_rework-bounded :
      (laws : CountsBounces) (issue : Issue) (limit : ℕ) (now : Instant) (w : World S G)
      → bounces issue.number (conflict_rework a issue limit now w).1.1
        ≤ max limit (bounces issue.number w.1)
  unfolding conflict_rework attempt
  conflict_rework-bounded laws issue limit now w = elim (Option-cases issue.linked_pr) [
    | inl h ↦ rw h (omega arith)
    | inr (pr, h) ↦
        let done = bounce_try a issue pr limit now w in
        rw h (
          rw (bounce_end-Keeps laws issue pr limit now done.0 done.1)
            (bounce_try-bounded laws issue pr limit now w))
  ]
