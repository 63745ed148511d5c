-- ===== src/Orchestrator/Actions/Final.antt =====
-- The notes of orchestrator/actions.py on a GitHub whose refusals are for good: writing one raises
-- nothing.
use issuebot.Prelude.{ℕ, String, Option, none, some, Bool, false, ◌≡◌, Bool-cases, inl, inr}
use issuebot.GitHub.Models.{review, Comment}
use issuebot.GitHub.Adapter.{Result, ok, err, attempt, retryable, GitHubAdapter}
use issuebot.Orchestrator.Actions.Notes.{needs_note, append_workpad, noted, write_note, escape_note}

-- It answers, or refuses for good: trying again is of no use.
abbrev pub IsFinal : {A : Type 0} → Result A → Type 0
IsFinal (ok _) = Unit
IsFinal (err error) = retryable error ≡ false

unfoldable pub Returns : {A : Type 0} → Result A → Type 0
Returns (ok _) = Unit
Returns (err _) = ⊥

-- GitHub moves the issue when it is told to, and any refusal of a comment is for good.
pub record Obeys {W : Type 0} (a : GitHubAdapter W) (number : ℕ) : Type 0 where
  pub finds : (w : W) → IsFinal (a.find_workpad_comment number w).0
  pub comments : (text : String) (w : W) → IsFinal (a.comment number text w).0
  pub updates :
      (comment_id : ℕ) (text : String) (w : W) → IsFinal (a.update_comment comment_id text w).0
  pub moves : (w : W) → (a.set_state number review false w).0 ≡ ok tt

module _ {W : Type 0} (a : GitHubAdapter W) (number : ℕ) (obeys : Obeys a number) where
  append_workpad-IsFinal :
      (workpad : Option Comment) (block : String) (w : W)
      → IsFinal (append_workpad a number workpad block w).0
  unfolding append_workpad
  append_workpad-IsFinal none block w = obeys.comments _ w
  append_workpad-IsFinal (some workpad) block w = obeys.updates workpad.id _ w

  noted-Returns : (r : Result (Unit {0})) (w : W) → IsFinal r → Returns (noted a number r w).0
  unfolding noted Returns
  noted-Returns (ok _) w h = tt
  noted-Returns (err error) w h = rw h tt

  write_note-Returns :
      (block : String) (written : String → Bool) (r : Result (Option Comment)) (w : W)
      → IsFinal r
      → Returns (write_note a number block written r w).0
  unfolding write_note Returns attempt
  write_note-Returns block written (err error) w h = rw h tt
  write_note-Returns block written (ok workpad) w h =
      elim (Bool-cases (needs_note workpad written)) [
        | inl needed ↦ rw needed (
            let done = append_workpad a number workpad block w in
            noted-Returns done.0 done.1 (append_workpad-IsFinal workpad block w))
        | inr done ↦ rw done tt
      ]

  pub escape_note-Returns :
      (block : String) (written : String → Bool) (w : W)
      → Returns (escape_note a number block written w).0
  unfolding escape_note attempt
  escape_note-Returns block written w =
      let found = a.find_workpad_comment number w in
      write_note-Returns block written found.0 found.1 (obeys.finds w)
