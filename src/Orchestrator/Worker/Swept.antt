-- ===== src/Orchestrator/Worker/Swept.antt =====
-- `_dispatch_candidates` of orchestrator/orchestrator.py keeps the two tables valid.
use issuebot.Prelude.{
  ℕ, suc, String, Option, none, some, List, [], ◌∷◌, ◌≡◌, refl, if◌then◌else◌, ltb,
}
use issuebot.Prelude.Float.{Float}
use issuebot.GitHub.Models.{Issue, in_progress}
use issuebot.GitHub.State.{same_state}
use issuebot.GitHub.Adapter.{Exec, pure, GitHubAdapter, ◌>>=◌, ◌>>◌}
use issuebot.Orchestrator.Admission.Gate.{Admission, admitted, refused, RefusalKind, work}
use issuebot.Orchestrator.Runtime.{sort_candidates}
use issuebot.Orchestrator.Actions.{World}
use issuebot.Orchestrator.Worker.{Worker, Clock, Settings, admit_issue_of}
use issuebot.Orchestrator.Worker.Refusals.{handle_refusal}
use issuebot.Orchestrator.Worker.Dispatch.{Accounts, Start, dispatch}
use issuebot.Orchestrator.Worker.Candidates.{
  ParentAnswer, Session, order_hold, resume_plan, ends_sweep, forget_held, keep_held, note_observed,
  start_one, readmitted, resume_with, recorded, sweep_one, sweep, dispatch_candidates,
}
use issuebot.Orchestrator.Worker.Effects.{Orch, update, inspect}
use issuebot.Orchestrator.Worker.Tables.{Tables, handle_refusal-Keeps}
use issuebot.Orchestrator.Worker.Moves.{
  IsValid, HasRoom, Moves, bind-Moves, after-Moves, inspect-Moves, if-Moves,
}
use issuebot.Orchestrator.Worker.Invariant.{dispatch-Moves}
use issuebot.Orchestrator.Worker.Firing.{admitted-room}

module _ {F : Type 0} ⦃f : Float F⦄ {S G : Type 0} (a : GitHubAdapter (World S G))
    (accounts : Accounts (World S G)) (settings : Settings F) (clock : Clock)
    (start : Issue → Start) (sessions : Issue → World S G → Option (Option Session)) where
  abbrev Kept : Tables → Type 0
  Kept = IsValid settings.max_concurrent_agents

  abbrev Room : Tables → Type 0
  Room = HasRoom settings.max_concurrent_agents

  -- A sweep, from its start or from a candidate on.
  abbrev IsSweep : Exec (Orch F S G) ℕ → Type 0
  IsSweep m =
      Moves (IsValid settings.max_concurrent_agents) (IsValid settings.max_concurrent_agents) m

  start_one-Moves :
      (issue : Issue) (attempt : ℕ) (session : Option String) (later : Exec (Orch F S G) ℕ)
      → IsSweep later
      → Moves Room Kept
          (start_one a accounts settings clock start sessions issue attempt session later)
  unfolding start_one
  start_one-Moves issue attempt session later h =
      bind-Moves Room Kept Kept (dispatch a accounts clock (start issue) issue attempt session)
        (λ started. later >>= λ n. pure (if started then suc n else n)) (λ t q. q)
        (dispatch-Moves a accounts clock (start issue) issue attempt session
          settings.max_concurrent_agents)
        (λ started.
          bind-Moves Kept Kept Kept later (λ n. pure (if started then suc n else n)) (λ t q. q) h
            (λ n u v. v))

  refuse-Moves :
      (issue : Issue) (kind : RefusalKind) (reason : String) (later : Exec (Orch F S G) ℕ)
      → IsSweep later
      → IsSweep (handle_refusal a clock issue kind reason >> later)
  refuse-Moves issue kind reason later h =
      after-Moves Kept Kept (handle_refusal a clock issue kind reason) (λ _. later) (λ t q. q)
        (handle_refusal-Keeps a clock issue kind reason) (λ _. h)

  module _ (issue : Issue) (later : Exec (Orch F S G) ℕ) (h : IsSweep later) where
    readmitted-Moves :
        (session : Option String) (w : Worker F) (asked : Admission F)
        → admit_issue_of settings w issue.identifier issue.id (some issue) work none ≡ asked
        → Kept (w.running, w.retries)
        → (R : Tables → Type 0) × R (w.running, w.retries)
          × Moves R Kept
              (readmitted a accounts settings clock start sessions issue session later asked)
    unfolding readmitted
    readmitted-Moves session w (refused kind reason wait) e v =
        (Kept, v, refuse-Moves issue kind reason later h)
    readmitted-Moves session w (admitted n ledger) e v = (
      Room,
      (v, admitted-room settings w issue.identifier issue.id (some issue) work none n ledger e),
      start_one-Moves issue n session later h,
    )

    resume_with-Moves :
        (attempt : ℕ) (plan : Option (Option String × ℕ))
        → Moves Room Kept
            (resume_with a accounts settings clock start sessions issue attempt later plan)
    unfolding resume_with update note_observed
    resume_with-Moves attempt none = λ u p. h u p.0
    resume_with-Moves attempt (some (session, seen)) =
        let ask = λ (w : Worker F).
          admit_issue_of settings w issue.identifier issue.id (some issue) work none in
        let again = λ (w : Worker F).
          readmitted a accounts settings clock start sessions issue session later (ask w) in
        if-Moves Room Kept (ltb attempt seen)
          (update (note_observed settings issue seen) >> (inspect >>= again))
          (start_one a accounts settings clock start sessions issue attempt session later)
          (after-Moves Room Kept (update (note_observed settings issue seen))
            (λ _. inspect >>= again) (λ t p. p.0) (λ u. refl)
            (λ _ u p.
              inspect-Moves Kept Kept again (λ w v. readmitted-Moves session w (ask w) refl v) u
                p.0))
          (start_one-Moves issue attempt session later h)

    sweep_one-Moves :
        (w : Worker F) (order : _) (asked : Admission F)
        → admit_issue_of settings w issue.identifier issue.id (some issue) work order ≡ asked
        → Kept (w.running, w.retries)
        → (R : Tables → Type 0) × R (w.running, w.retries)
          × Moves R Kept (sweep_one a accounts settings clock start sessions issue later asked)
    unfolding sweep_one update forget_held recorded
    sweep_one-Moves w order (refused kind reason wait) e v = (
      Kept,
      v,
      if-Moves Kept Kept (ends_sweep kind) (pure 0)
          (handle_refusal a clock issue kind reason >> later) (λ u q. q)
          (refuse-Moves issue kind reason later h),
    )
    sweep_one-Moves w order (admitted n ledger) e v =
        let found = recorded a accounts settings clock start sessions issue in
        let resume = λ (s : Option (Option Session)).
          resume_with a accounts settings clock start sessions issue n later
            (resume_plan issue s) in
        let fresh = start_one a accounts settings clock start sessions issue n none later in
        let resumes = same_state issue.state (some in_progress) in
        (
          Room,
          (
            v,
            admitted-room settings w issue.identifier issue.id (some issue) work order n ledger e,
          ),
          after-Moves Room Kept (update (forget_held issue))
              (λ _. if resumes then (found >>= resume) else fresh) (λ t p. p.0) (λ u. refl)
              (λ _.
                if-Moves Room Kept resumes (found >>= resume) fresh
                  (after-Moves Room Kept found resume (λ t p. p.0) (λ u. refl)
                    (λ s. resume_with-Moves n (resume_plan issue s)))
                  (start_one-Moves issue n none later h)),
        )

  sweep-Moves :
      (answers : Option (List (ℕ × ParentAnswer))) (issues : List Issue)
      → IsSweep (sweep a accounts settings clock start sessions answers issues)
  unfolding sweep
  sweep-Moves answers [] = λ u v. v
  sweep-Moves answers (issue ∷ issues) =
      let later = sweep a accounts settings clock start sessions answers issues in
      let order = order_hold a.labels issue answers in
      let ask = λ (w : Worker F).
        admit_issue_of settings w issue.identifier issue.id (some issue) work order in
      inspect-Moves Kept Kept
        (λ w. sweep_one a accounts settings clock start sessions issue later (ask w))
        (λ w v. sweep_one-Moves issue later (sweep-Moves answers issues) w order (ask w) refl v)

  pub dispatch_candidates-IsValid :
      (issues : Option (List Issue)) (answers : Option (List (ℕ × ParentAnswer)))
      → IsSweep (dispatch_candidates a accounts settings clock start sessions issues answers)
  unfolding dispatch_candidates update keep_held
  dispatch_candidates-IsValid none answers = λ u v. v
  dispatch_candidates-IsValid (some issues) answers =
      after-Moves Kept Kept (update (keep_held issues))
        (λ _. sweep a accounts settings clock start sessions answers (sort_candidates issues))
        (λ t q. q) (λ u. refl) (λ _. sweep-Moves answers (sort_candidates issues))
