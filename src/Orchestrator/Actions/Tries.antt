-- ===== src/Orchestrator/Actions/Tries.antt =====
-- What the `try` of an escape in orchestrator/actions.py does: it publishes nothing, and an issue that
-- it moved is in `review`.
use issuebot.Prelude.{
  ℕ, String, Option, none, some, List, [], ◌∷◌, Bool, true, false, ◌≡◌, refl, ◌∙◌, if◌then◌else◌,
}
use issuebot.GitHub.Models.{Issue, StateLabel, review}
use issuebot.GitHub.Adapter.{
  Result, ok, err, Exec, continue, pure, attempt, GitHubAdapter, ◌>>=◌, ◌>>◌,
}
use issuebot.Orchestrator.Actions.{World, EscapeOutcome}
use issuebot.Orchestrator.Actions.Notes.{NoteFailure, escape_note}
use issuebot.Orchestrator.Actions.Escapes.{Moved, note_and_review}
use issuebot.Orchestrator.Actions.Effects.{Keeps, escape_note-Keeps, MovesStates}

module _ {S G : Type 0} (a : GitHubAdapter (World S G)) (role : ℕ → G → Option StateLabel)
    (laws : MovesStates a role) where
  -- No issue has another state than before.
  abbrev pub Unmoved : World S G → World S G → Type 0
  Unmoved w v = (p : ℕ) → role p v.1 ≡ role p w.1

  -- An issue that a `try` moved is in `review`; where it moved none, no issue has moved.
  unfoldable pub InReview : World S G → Result (Option Moved) → World S G → Type 0
  InReview w (ok (some moved)) v = role moved.issue.number v.1 ≡ some review
  InReview w (ok none) v = Unmoved w v
  InReview w (err _) v = Unit

  -- The `try` publishes nothing, and what it moved is in `review`.
  unfoldable pub IsTry : Exec (World S G) (Option Moved) → Type 0
  IsTry m = (w : World S G) → ((m w).1.0 ≡ w.0) × InReview w (m w).0 (m w).1

  from-InReview :
      (w v : World S G) (r : Result (Option Moved)) (u : World S G)
      → Unmoved w v
      → InReview v r u
      → InReview w r u
  unfolding InReview
  from-InReview w v (ok (some moved)) u e h = h
  from-InReview w v (ok none) u e h = λ p. h p ∙ e p
  from-InReview w v (err _) u e h = tt

  pub pure-IsTry : IsTry (pure none)
  unfolding IsTry InReview
  pure-IsTry w = (refl, λ p. refl)

  continue-IsTry :
      {A : Type 0} (r : Result A) (f : A → Exec (World S G) (Option Moved)) (v w : World S G)
      → v.0 ≡ w.0
      → Unmoved w v
      → ((x : A) → IsTry (f x))
      → ((continue r f v).1.0 ≡ w.0) × InReview w (continue r f v).0 (continue r f v).1
  unfolding IsTry
  continue-IsTry (ok x) f v w e stays k =
      ((k x v).0 ∙ e, from-InReview w v (f x v).0 (f x v).1 stays (k x v).1)
  continue-IsTry (err error) f v w e stays k = unfold InReview in (e, tt)

  bind-IsTry :
      {A : Type 0} (m : Exec (World S G) A) (f : A → Exec (World S G) (Option Moved))
      → Keeps (λ w. w.0) m
      → ((p : ℕ) → Keeps (λ w. role p w.1) m)
      → ((x : A) → IsTry (f x))
      → IsTry (m >>= f)
  unfolding IsTry
  bind-IsTry m f h stays k w = continue-IsTry (m w).0 f (m w).1 w (h w) (λ p. stays p w) k

  module _ (issue : Issue) (block : String) (note_failure : Option NoteFailure) where
    abbrev as_moved : Moved
    as_moved = record { issue = issue; block = block; note_failure = note_failure }

    set-InReview :
        (r : Result (Unit {0})) (v w : World S G)
        → v.0 ≡ w.0
        → (r ≡ ok tt → role issue.number v.1 ≡ some review)
        → let (s, v') = continue r (λ _. pure (some as_moved)) v in (v'.0 ≡ w.0) × InReview w s v'
    unfolding InReview
    set-InReview (ok tt) v w e h = (e, h refl)
    set-InReview (err _) v w e h = (e, tt)

    reviewed-IsTry : IsTry (a.set_state issue.number review false >> pure (some as_moved))
    unfolding IsTry
    reviewed-IsTry w =
        let done = a.set_state issue.number review false w in
        set-InReview done.0 done.1 w (laws.sets_silently issue.number review false w)
          (laws.sets issue.number review false w)

  pub note_and_review-IsTry :
      (written : String → Bool) (block : String) (issue : Issue)
      → IsTry (note_and_review a written block issue)
  unfolding note_and_review
  note_and_review-IsTry written block issue =
      bind-IsTry (escape_note a issue.number block written) _
        (escape_note-Keeps _ a laws.bus_calls issue.number block written)
        (λ p. escape_note-Keeps _ a (laws.role_calls p) issue.number block written)
        (reviewed-IsTry issue block)

  pub unless-IsTry :
      (skip : Bool) (m : Exec (World S G) (Option Moved))
      → IsTry m
      → IsTry (if skip then pure none else m)
  unless-IsTry true m h = pure-IsTry
  unless-IsTry false m h = h

  pub try-ends :
      (Ends : Result (Option Moved) → World S G → Result EscapeOutcome → World S G → Type 0)
      (m : Exec (World S G) (Option Moved))
      (end : Result (Option Moved) → Exec (World S G) EscapeOutcome)
      → IsTry m
      → ((r : Result (Option Moved)) (w v : World S G)
          → v.0 ≡ w.0
          → InReview w r v
          → Ends r w (end r v).0 (end r v).1)
      → (w : World S G) → Ends (m w).0 w ((attempt m >>= end) w).0 ((attempt m >>= end) w).1
  unfolding IsTry attempt
  try-ends Ends m end h k w = k (m w).0 w (m w).1 (h w).0 (h w).1

  pub fetched-IsTry :
      (issue_id : String) (f : List Issue → Exec (World S G) (Option Moved))
      → ((issues : List Issue) → IsTry (f issues))
      → IsTry (a.fetch_issues_by_ids (issue_id ∷ []) >>= f)
  fetched-IsTry issue_id f =
      bind-IsTry (a.fetch_issues_by_ids (issue_id ∷ [])) f (laws.bus_calls.fetches (issue_id ∷ []))
        (λ p. (laws.role_calls p).fetches (issue_id ∷ []))
