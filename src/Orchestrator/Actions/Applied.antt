-- ===== src/Orchestrator/Actions/Applied.antt =====
-- When the escapes of orchestrator/actions.py do move an issue: a note that GitHub refuses for good
-- stops none of them.
use issuebot.Prelude.{
  ℕ, String, Option, none, some, List, [], ◌∷◌, Bool, true, false, ◌≡◌, refl, ◌∙◌, sym, ap, not,
  ◌||◌, if◌then◌else◌,
}
use mathlib.Core.Path.{subst}
use issuebot.GitHub.Models.{Instant, Issue, StateLabel, in_progress, review, is_open, opened}
use issuebot.GitHub.State.{is_active, same_state}
use issuebot.GitHub.Adapter.{Result, ok, err, continue, pure, attempt, GitHubAdapter, ◌>>◌}
use issuebot.Orchestrator.Runtime.{BlockedContext}
use issuebot.Orchestrator.Filing.Apply.{announce}
use issuebot.Orchestrator.Actions.{World, EscapeOutcome, applied, skipped, BudgetLimit, label_moved}
use issuebot.Orchestrator.Actions.Notes.{NoteFailure, escape_note, report_note_failure}
use issuebot.Orchestrator.Actions.Escapes.{
  Moved, first, note_and_review, blocked_try, blocked_end, blocked_escape, announce_news,
  budget_try, budget_end, budget_escape,
}
use issuebot.Orchestrator.Actions.Final.{Returns, Obeys, escape_note-Returns}
use issuebot.Orchestrator.Actions.Effects.{report_note_failure-Keeps, after_report, MovesStates}

module _ {S G : Type 0} (a : GitHubAdapter (World S G)) (role : ℕ → G → Option StateLabel)
    (laws : MovesStates a role) (issue : Issue) (obeys : Obeys a issue.number) where
  -- The `try` has moved this issue to `review`.
  IsMoved : Result (Option Moved) → World S G → Type 0
  IsMoved (ok (some moved)) v = (moved.issue ≡ issue) × (role moved.issue.number v.1 ≡ some review)
  IsMoved _ v = ⊥

  abbrev as_moved : String → Option NoteFailure → Moved
  as_moved block failure = record { issue = issue; block = block; note_failure = failure }

  set-IsMoved :
      (block : String) (failure : Option NoteFailure) (r : Result (Unit {0})) (v : World S G)
      → r ≡ ok tt
      → role issue.number v.1 ≡ some review
      → let (s, u) = continue r (λ _. pure (some (as_moved block failure))) v in IsMoved s u
  unfolding IsMoved
  set-IsMoved block failure (ok _) v e h = (refl, h)
  set-IsMoved block failure (err _) v e h = cc

  noted-IsMoved :
      (block : String) (r : Result (Option NoteFailure)) (v : World S G)
      → Returns r
      → let (s, u) =
          continue r
            (λ failure.
              a.set_state issue.number review false >> pure (some (as_moved block failure)))
            v in
        IsMoved s u
  unfolding Returns
  noted-IsMoved block (err _) v h = absurd h
  noted-IsMoved block (ok failure) v h =
      let set = a.set_state issue.number review false v in
      set-IsMoved block failure set.0 set.1 (obeys.moves v)
        (laws.sets issue.number review false v (obeys.moves v))

  note_and_review-IsMoved :
      (written : String → Bool) (block : String) (w : World S G)
      → let (s, u) = note_and_review a written block issue w in IsMoved s u
  unfolding note_and_review
  note_and_review-IsMoved written block w =
      let note = escape_note a issue.number block written w in
      noted-IsMoved block note.0 note.1 (escape_note-Returns a issue.number obeys block written w)

  unless-IsMoved :
      (skip : Bool) (written : String → Bool) (block : String) (v : World S G)
      → skip ≡ false
      → let (s, u) = (if skip then pure none else note_and_review a written block issue) v in
        IsMoved s u
  unless-IsMoved true written block v h = cc
  unless-IsMoved false written block v h = note_and_review-IsMoved written block v

  -- The issue is in `review` and the escape has this outcome.
  abbrev pub IsIn : EscapeOutcome → Result EscapeOutcome → World S G → Type 0
  IsIn outcome r v = (r ≡ ok outcome) × (role issue.number v.1 ≡ some review)

  reported-role :
      (moved : Moved) (v : World S G)
      → moved.issue ≡ issue
      → role moved.issue.number v.1 ≡ some review
      → role issue.number
          (report_note_failure a moved.issue.number moved.block moved.note_failure v).1.1
        ≡ some review
  reported-role moved v e h =
      let number = moved.issue.number in
      subst
        (λ n.
          role n (report_note_failure a number moved.block moved.note_failure v).1.1 ≡ some review)
        (ap (λ i. i.number) e)
        (report_note_failure-Keeps (λ u. role number u.1) a (laws.role_calls number) number
            moved.block moved.note_failure v
          ∙ h)

  module _ (context : BlockedContext) (now : Instant) where
    blocked_end-IsIn :
        (tried : Result (Option Moved)) (v : World S G)
        → IsMoved tried v
        → let (r, u) = blocked_end a context now tried v in IsIn applied r u
    unfolding blocked_end IsMoved announce
    blocked_end-IsIn (err _) v h = absurd h
    blocked_end-IsIn (ok none) v h = absurd h
    blocked_end-IsIn (ok (some moved)) v (e, h) =
        rw (after_report a moved.issue.number moved.block moved.note_failure (pure applied))
          (refl, reported-role moved _ e h)

    is_blockable :
        issue.github_state ≡ is_open
        → issue.state ≡ some in_progress
        → (not (opened issue.github_state) || not (same_state issue.state (some in_progress)))
          ≡ false
    unfolding opened same_state
    is_blockable o p = rw (o, p) refl

    blocked_tried :
        (r : Result (List Issue)) (rest : List Issue) (v : World S G)
        → r ≡ ok (issue ∷ rest)
        → issue.github_state ≡ is_open
        → issue.state ≡ some in_progress
        → let (s, u) = continue r (blocked_try a context now) v in IsMoved s u
    unfolding blocked_try first
    blocked_tried r rest v e o p = rw e (unless-IsMoved _ _ _ v (is_blockable o p))

    blocked_escape-applies :
        (issue_id : String) (rest : List Issue) (w : World S G)
        → (a.fetch_issues_by_ids (issue_id ∷ []) w).0 ≡ ok (issue ∷ rest)
        → issue.github_state ≡ is_open
        → issue.state ≡ some in_progress
        → let (r, v) = blocked_escape a context now issue_id w in IsIn applied r v
    unfolding blocked_escape attempt
    blocked_escape-applies issue_id rest w e o p =
        let read = a.fetch_issues_by_ids (issue_id ∷ []) w in
        blocked_end-IsIn _ _ (blocked_tried read.0 rest read.1 e o p)

  module _ (limit : BudgetLimit) (reason : String) (now : Instant) (is_news : Bool) where
    news-IsIn :
        (announced : Bool) (v : World S G)
        → role issue.number v.1 ≡ some review
        → let (r, u) = announce_news a announced reason issue v in
          IsIn (if announced then applied else skipped) r u
    unfolding announce_news announce
    news-IsIn true v h = (refl, h)
    news-IsIn false v h = (refl, h)

    budget_end-IsIn :
        (tried : Result (Option Moved)) (v : World S G)
        → IsMoved tried v
        → let (r, u) = budget_end a limit reason now is_news tried v in
          IsIn (if is_news then applied else skipped) r u
    unfolding budget_end IsMoved announce
    budget_end-IsIn (err _) v h = absurd h
    budget_end-IsIn (ok none) v h = absurd h
    budget_end-IsIn (ok (some moved)) v (e, h) =
        rw
          (after_report a moved.issue.number moved.block moved.note_failure
            (announce_news a is_news reason moved.issue))
          (subst
            (λ i.
              let (r, u) =
                announce_news a is_news reason i
                  (report_note_failure a moved.issue.number moved.block moved.note_failure
                    (announce (label_moved moved.issue (some a.labels.review)) v).1).1 in
              IsIn (if is_news then applied else skipped) r u)
            (sym e) (news-IsIn is_news _ (reported-role moved _ e h)))

    is_escapable :
        issue.github_state ≡ is_open
        → is_active issue.state ≡ true
        → (not (opened issue.github_state) || not (is_active issue.state)) ≡ false
    unfolding opened
    is_escapable o p = rw (o, p) refl

    budget_tried :
        (r : Result (List Issue)) (rest : List Issue) (v : World S G)
        → r ≡ ok (issue ∷ rest)
        → issue.github_state ≡ is_open
        → is_active issue.state ≡ true
        → let (s, u) = continue r (budget_try a limit reason now is_news) v in IsMoved s u
    unfolding budget_try first
    budget_tried r rest v e o p = rw e (unless-IsMoved _ _ _ v (is_escapable o p))

    budget_escape-applies :
        (issue_id : String) (rest : List Issue) (w : World S G)
        → (a.fetch_issues_by_ids (issue_id ∷ []) w).0 ≡ ok (issue ∷ rest)
        → issue.github_state ≡ is_open
        → is_active issue.state ≡ true
        → let (r, v) = budget_escape a limit reason now is_news issue_id w in
          IsIn (if is_news then applied else skipped) r v
    unfolding budget_escape attempt
    budget_escape-applies issue_id rest w e o p =
        let read = a.fetch_issues_by_ids (issue_id ∷ []) w in
        budget_end-IsIn _ _ (budget_tried read.0 rest read.1 e o p)

    -- On a GitHub that keeps the states that it is told (`MovesStates`) and sets this one, and that
    -- refuses no comment but for good: an open issue that is read in progress is in review after
    -- either escape, whatever becomes of its note. The blocked escape is applied; the budget escape is
    -- applied if it is news, and otherwise answers that it was skipped.
    pub escapes_apply :
        (context : BlockedContext) (issue_id : String) (rest : List Issue) (w : World S G)
        → (a.fetch_issues_by_ids (issue_id ∷ []) w).0 ≡ ok (issue ∷ rest)
        → issue.github_state ≡ is_open
        → issue.state ≡ some in_progress
        → let (r, v) = blocked_escape a context now issue_id w in
          let (s, u) = budget_escape a limit reason now is_news issue_id w in
          IsIn applied r v × IsIn (if is_news then applied else skipped) s u
    unfolding is_active
    escapes_apply context issue_id rest w e o p = (
      blocked_escape-applies context now issue_id rest w e o p,
      budget_escape-applies issue_id rest w e o (ap is_active p),
    )
