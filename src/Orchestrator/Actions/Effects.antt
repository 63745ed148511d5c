-- ===== src/Orchestrator/Actions/Effects.antt =====
-- What the calls of orchestrator/actions.py leave alone: `view` is any part of the world, and the laws
-- say which parts GitHub's methods keep.
use issuebot.Prelude.{
  ℕ, String, Option, none, some, List, [], ◌∷◌, Bool, true, false, ◌≡◌, refl, inl, inr, Bool-cases,
  if◌then◌else◌,
}
use issuebot.GitHub.Models.{StateLabel, Comment}
use issuebot.GitHub.Adapter.{
  Result, ok, err, Exec, continue, pure, attempt, retryable, GitHubAdapter, ◌>>=◌, ◌>>◌,
}
use issuebot.Events.{Event}
use issuebot.Events.Bus.{EventBus, publish}
use issuebot.Orchestrator.Actions.{World}
use issuebot.Orchestrator.Actions.Notes.{
  NoteFailure, Phase, read, write, needs_note, append_workpad, noted, write_note, escape_note,
  report_phase, report_note_failure,
}

module _ {W V : Type 0} (view : W → V) where
  -- It returns or raises with that part of the world as it was.
  abbrev pub Keeps : {A : Type 0} → Exec W A → Type 0
  Keeps m = (w : W) → view (m w).1 ≡ view w

  -- The methods that read, and those that write comments.
  pub record Calls (a : GitHubAdapter W) : Type 0 where
    pub fetches : (ids : List String) → Keeps (a.fetch_issues_by_ids ids)
    pub finds : (number : ℕ) → Keeps (a.find_workpad_comment number)
    pub counts : (number : ℕ) (label : String) → Keeps (a.count_own_label_additions number label)
    pub comments : (number : ℕ) (text : String) → Keeps (a.comment number text)
    pub updates : (comment_id : ℕ) (text : String) → Keeps (a.update_comment comment_id text)

  pub continue-Keeps :
      {A B : Type 0} (r : Result A) (f : A → Exec W B) (w : W)
      → ((x : A) → Keeps (f x))
      → view (continue r f w).1 ≡ view w
  continue-Keeps (ok x) f w h = h x w
  continue-Keeps (err _) f w h = refl

  pub bind-Keeps :
      {A B : Type 0} (m : Exec W A) (f : A → Exec W B)
      → Keeps m
      → ((x : A) → Keeps (f x))
      → Keeps (m >>= f)
  bind-Keeps m f h k w = rw (continue-Keeps (m w).0 f (m w).1 k) (h w)

  pub then_pure-Keeps : {A B : Type 0} (m : Exec W A) (x : B) → Keeps m → Keeps (m >> pure x)
  then_pure-Keeps m x h = bind-Keeps m (λ _. pure x) h (λ _ w. refl)

  pub if-Keeps :
      {A : Type 0} (b : Bool) (m n : Exec W A) → Keeps m → Keeps n → Keeps (if b then m else n)
  if-Keeps true m n h k = h
  if-Keeps false m n h k = k

  pub attempt-Keeps : {A : Type 0} (m : Exec W A) → Keeps m → Keeps (attempt m)
  unfolding attempt
  attempt-Keeps m h w = h w

  module _ (a : GitHubAdapter W) (calls : Calls a) (number : ℕ) where
    pub append_workpad-Keeps :
        (workpad : Option Comment) (block : String) → Keeps (append_workpad a number workpad block)
    unfolding append_workpad
    append_workpad-Keeps none block = calls.comments number _
    append_workpad-Keeps (some workpad) block = calls.updates workpad.id _

    pub noted-Keeps : (r : Result (Unit {0})) → Keeps (noted a number r)
    unfolding noted
    noted-Keeps (ok _) w = refl
    noted-Keeps (err e) w = elim (Bool-cases (retryable e)) [
      | inl h ↦ rw h refl
      | inr h ↦ rw h refl
    ]

    pub write_note-Keeps :
        (block : String) (written : String → Bool) (r : Result (Option Comment))
        → Keeps (write_note a number block written r)
    unfolding write_note
    write_note-Keeps block written (err e) w = elim (Bool-cases (retryable e)) [
      | inl h ↦ rw h refl
      | inr h ↦ rw h refl
    ]
    write_note-Keeps block written (ok workpad) w = elim (Bool-cases (needs_note workpad written)) [
      | inl h ↦ rw h (
          bind-Keeps (attempt (append_workpad a number workpad block)) (noted a number)
            (attempt-Keeps (append_workpad a number workpad block)
              (append_workpad-Keeps workpad block))
            noted-Keeps w)
      | inr h ↦ rw h refl
    ]

    pub escape_note-Keeps :
        (block : String) (written : String → Bool) → Keeps (escape_note a number block written)
    unfolding escape_note
    escape_note-Keeps block written =
        bind-Keeps (attempt (a.find_workpad_comment number)) (write_note a number block written)
          (attempt-Keeps (a.find_workpad_comment number) (calls.finds number))
          (write_note-Keeps block written)

    report_phase-Keeps :
        (block : String) (phase : Phase) → Keeps (report_phase a number block phase)
    unfolding report_phase
    report_phase-Keeps block read =
        bind-Keeps (attempt (append_workpad a number none block)) (λ _. pure tt)
          (attempt-Keeps (append_workpad a number none block) (append_workpad-Keeps none block))
          (λ _ w. refl)
    report_phase-Keeps block write = λ w. refl

    pub report_note_failure-Keeps :
        (block : String) (failure : Option NoteFailure)
        → Keeps (report_note_failure a number block failure)
    unfolding report_note_failure
    report_note_failure-Keeps block none = λ w. refl
    report_note_failure-Keeps block (some failure) = report_phase-Keeps block failure.phase

module _ {W : Type 0} (a : GitHubAdapter W) (number : ℕ) where
  report_phase-returns :
      (block : String) (phase : Phase) (w : W) → (report_phase a number block phase w).0 ≡ ok tt
  unfolding report_phase attempt
  report_phase-returns block read w = refl
  report_phase-returns block write w = refl

  -- What follows the report runs: it never raises.
  pub after_report :
      {A : Type 0} (block : String) (failure : Option NoteFailure) (f : Exec W A) (w : W)
      → let m = report_note_failure a number block failure in (m >> f) w ≡ f (m w).1
  unfolding report_note_failure
  after_report block none f w = refl
  after_report block (some failure) f w = rw (report_phase-returns block failure.phase w) refl

-- The bus, and what its sinks have changed, once these events were published on it in this order.
unfoldable pub heard : {S : Type 0} → List Event → EventBus S × S → EventBus S × S
heard [] bus = bus
heard (event ∷ events) (bus, s) = heard events (publish bus event s)

-- GitHub's side of the label state machine: the state of an issue is what `set_state` and
-- `clear_state` last set, and no method publishes an event.
pub record MovesStates {S G : Type 0} (a : GitHubAdapter (World S G))
    (role : ℕ → G → Option StateLabel) : Type 0 where
  pub bus_calls : Calls (λ w. w.0) a
  pub role_calls : (p : ℕ) → Calls (λ w. role p w.1) a
  pub sets_silently :
      (number : ℕ) (state : StateLabel) (markers : Bool)
      → Keeps (λ w. w.0) (a.set_state number state markers)
  pub clears_silently : (number : ℕ) → Keeps (λ w. w.0) (a.clear_state number)
  pub sets :
      (number : ℕ) (state : StateLabel) (markers : Bool) (w : World S G)
      → (a.set_state number state markers w).0 ≡ ok tt
      → role number (a.set_state number state markers w).1.1 ≡ some state
  pub clears :
      (number : ℕ) (w : World S G)
      → (a.clear_state number w).0 ≡ ok tt
      → role number (a.clear_state number w).1.1 ≡ none
