-- ===== src/Orchestrator/Actions/Announced.antt =====
-- What the escapes of orchestrator/actions.py leave behind: the state on GitHub, and the events on
-- the bus.
use issuebot.Prelude.{
  ℕ, String, Option, none, some, List, [], ◌∷◌, Bool, true, false, ◌≡◌, refl, ◌⊎◌, inl, inr, ap,
  ◌∙◌, map,
}
use issuebot.GitHub.Models.{Instant, Issue, StateLabel, review}
use issuebot.GitHub.Adapter.{Result, ok, err, pure, GitHubAdapter, ◌>>=◌}
use issuebot.Events.{Event}
use issuebot.Events.Bus.{EventBus, publish}
use issuebot.Orchestrator.Runtime.{BlockedContext}
use issuebot.Orchestrator.Filing.Apply.{announce}
use issuebot.Orchestrator.Actions.{
  World, EscapeOutcome, applied, skipped, failed, BudgetLimit, label_moved, blocked_by,
}
use issuebot.Orchestrator.Actions.Notes.{report_note_failure}
use issuebot.Orchestrator.Actions.Escapes.{
  Moved, first, blocked_try, blocked_end, blocked_escape, announce_news, budget_try, budget_end,
  budget_escape,
}
use issuebot.Orchestrator.Actions.Tries.{
  Unmoved, InReview, IsTry, pure-IsTry, note_and_review-IsTry, unless-IsTry, try-ends,
  fetched-IsTry,
}
use issuebot.Orchestrator.Actions.Effects.{
  report_note_failure-Keeps, after_report, heard, MovesStates,
}

module _ {S G : Type 0} (a : GitHubAdapter (World S G)) (role : ℕ → G → Option StateLabel)
    (laws : MovesStates a role) where
  -- Skipped because the `try` moved nothing, with every issue in the state it had, or failed because
  -- the `try` raised; either way with nothing published.
  abbrev pub Nothing : Result (Option Moved) → World S G → Result EscapeOutcome → World S G → Type 0
  Nothing (ok (some _)) w r v = ⊥
  Nothing (ok none) w r v = (r ≡ ok skipped) × Unmoved a role laws w v × (v.0 ≡ w.0)
  Nothing (err _) w r v = (r ≡ ok failed) × (v.0 ≡ w.0)

  -- An issue is in `review`, and these events about it have been published on that bus.
  abbrev pub Reviewed : List (Issue → Event) → EventBus S × S → World S G → Type 0
  Reviewed events bus v =
      (issue : Issue) × (role issue.number v.1 ≡ some review)
      × (v.0 ≡ heard (map (λ event. event issue) events) bus)

  -- Reporting the note of a move changes neither.
  reported-Reviewed :
      (events : List (Issue → Event)) (moved : Moved) (bus : EventBus S × S) (v : World S G)
      → role moved.issue.number v.1 ≡ some review
      → v.0 ≡ heard (map (λ event. event moved.issue) events) bus
      → Reviewed events bus
          (report_note_failure a moved.issue.number moved.block moved.note_failure v).1
  reported-Reviewed events moved bus v h e =
      let number = moved.issue.number in
      (
        moved.issue,
        report_note_failure-Keeps (λ u. role number u.1) a (laws.role_calls number) number
              moved.block moved.note_failure v
            ∙ h,
        report_note_failure-Keeps (λ u. u.0) a laws.bus_calls number moved.block moved.note_failure
              v
            ∙ e,
      )

  abbrev pub to_review : Issue → Event
  to_review issue = label_moved issue (some a.labels.review)

  module _ (context : BlockedContext) (now : Instant) where
    blocked_try-IsTry : (issues : List Issue) → IsTry a role laws (blocked_try a context now issues)
    unfolding blocked_try first
    blocked_try-IsTry [] = pure-IsTry a role laws
    blocked_try-IsTry (issue ∷ _) =
        unless-IsTry a role laws _ _ (note_and_review-IsTry a role laws _ _ issue)

    abbrev pub blocked_events : List (Issue → Event)
    blocked_events = to_review ∷ (λ issue. blocked_by issue context.reason) ∷ []

    -- Applied with both events and the issue in `review`, or nothing was published and the `try` has
    -- moved nothing or raised.
    abbrev pub BlockedEnds :
        Result (Option Moved) → World S G → Result EscapeOutcome → World S G → Type 0
    BlockedEnds tried w r v =
        ((r ≡ ok applied) × Reviewed blocked_events w.0 v) ⊎ Nothing tried w r v

    abbrev told : Moved → List Event
    told moved = to_review moved.issue ∷ blocked_by moved.issue context.reason ∷ []

    blocked_end-ends :
        (r : Result (Option Moved)) (w v : World S G)
        → v.0 ≡ w.0
        → InReview a role laws w r v
        → BlockedEnds r w (blocked_end a context now r v).0 (blocked_end a context now r v).1
    unfolding blocked_end InReview heard announce
    blocked_end-ends (err error) w v e h = inr (refl, e)
    blocked_end-ends (ok none) w v e h = inr (refl, h, e)
    blocked_end-ends (ok (some moved)) w (bus, g) e h =
        rw (after_report a moved.issue.number moved.block moved.note_failure (pure applied))
          (inl (refl, reported-Reviewed blocked_events moved w.0 _ h (ap (heard (told moved)) e)))

    -- On a GitHub that keeps the states that it is told (`MovesStates`), the blocked escape never
    -- raises. It is applied, with the issue in review and a state change and then a block published; or
    -- its `try` moved nothing, and it is skipped with every issue in the state it had; or its `try`
    -- raised, and it has failed; and then nothing is published.
    pub blocked_escape-ends :
        (issue_id : String) (w : World S G)
        → BlockedEnds
            ((a.fetch_issues_by_ids (issue_id ∷ []) >>= blocked_try a context now) w).0
            w
            (blocked_escape a context now issue_id w).0
            (blocked_escape a context now issue_id w).1
    unfolding blocked_escape
    blocked_escape-ends issue_id =
        try-ends a role laws BlockedEnds _ (blocked_end a context now)
          (fetched-IsTry a role laws issue_id (blocked_try a context now) blocked_try-IsTry)
          blocked_end-ends

  module _ (reason : String) where
    abbrev pub budget_events : List (Issue → Event)
    budget_events = to_review ∷ (λ issue. blocked_by issue reason) ∷ []

    -- Applied as the blocked escape is, where the escalation is news; moved and skipped where it is
    -- not; or nothing was published and the `try` has moved nothing or raised.
    abbrev pub BudgetEnds :
        Bool → Result (Option Moved) → World S G → Result EscapeOutcome → World S G → Type 0
    BudgetEnds is_news tried w r v =
        ((r ≡ ok applied) × (is_news ≡ true) × Reviewed budget_events w.0 v)
        ⊎ (((r ≡ ok skipped) × (is_news ≡ false) × Reviewed (to_review ∷ []) w.0 v)
            ⊎ Nothing tried w r v)

    news-ends :
        (is_news : Bool) (issue : Issue) (tried : Result (Option Moved)) (w v : World S G)
        → role issue.number v.1 ≡ some review
        → v.0 ≡ heard (to_review issue ∷ []) w.0
        → BudgetEnds is_news tried w
            (announce_news a is_news reason issue v).0
            (announce_news a is_news reason issue v).1
    unfolding heard announce announce_news
    news-ends true issue tried w v h e =
        inl (refl, refl, (issue, h, ap (λ c. publish c.0 (blocked_by issue reason) c.1) e))
    news-ends false issue tried w v h e = inr (inl (refl, refl, (issue, h, e)))

  module _ (limit : BudgetLimit) (reason : String) (now : Instant) (is_news : Bool) where
    budget_try-IsTry :
        (issues : List Issue) → IsTry a role laws (budget_try a limit reason now is_news issues)
    unfolding budget_try first
    budget_try-IsTry [] = pure-IsTry a role laws
    budget_try-IsTry (issue ∷ _) =
        unless-IsTry a role laws _ _ (note_and_review-IsTry a role laws _ _ issue)

    budget_end-ends :
        (r : Result (Option Moved)) (w v : World S G)
        → v.0 ≡ w.0
        → InReview a role laws w r v
        → BudgetEnds reason is_news r w
            (budget_end a limit reason now is_news r v).0
            (budget_end a limit reason now is_news r v).1
    unfolding budget_end InReview heard announce
    budget_end-ends (err error) w v e h = inr (inr (refl, e))
    budget_end-ends (ok none) w v e h = inr (inr (refl, h, e))
    budget_end-ends (ok (some moved)) w (bus, g) e h =
        let number = moved.issue.number in
        rw
          (after_report a number moved.block moved.note_failure
            (announce_news a is_news reason moved.issue))
          (news-ends reason is_news moved.issue (ok (some moved)) w _
            (report_note_failure-Keeps (λ u. role number u.1) a (laws.role_calls number) number
                moved.block moved.note_failure _
              ∙ h)
            (report_note_failure-Keeps (λ u. u.0) a laws.bus_calls number moved.block
                moved.note_failure _
              ∙ ap (heard (to_review moved.issue ∷ [])) e))

    -- On a GitHub that keeps the states that it is told (`MovesStates`), the budget escape never
    -- raises. Where its `try` moved an issue, that issue is in review and its state change is published: as
    -- news it is applied and the block is published too, otherwise it is answered as skipped. Where the
    -- `try` moved nothing it is skipped, with every issue in the state it had; where the `try` raised
    -- it has failed; and then nothing is published.
    pub budget_escape-ends :
        (issue_id : String) (w : World S G)
        → BudgetEnds reason is_news
            ((a.fetch_issues_by_ids (issue_id ∷ []) >>= budget_try a limit reason now is_news) w).0
            w
            (budget_escape a limit reason now is_news issue_id w).0
            (budget_escape a limit reason now is_news issue_id w).1
    unfolding budget_escape
    budget_escape-ends issue_id =
        try-ends a role laws (BudgetEnds reason is_news) _ (budget_end a limit reason now is_news)
          (fetched-IsTry a role laws issue_id (budget_try a limit reason now is_news)
            budget_try-IsTry)
          budget_end-ends
