-- ===== src/Orchestrator/Actions/Notes.antt =====
-- orchestrator/actions.py: the workpad note of an escape, which is written before the label moves.
use issuebot.Prelude.{String, Option, none, some, Bool, not, ℕ, if◌then◌else◌}
use issuebot.Prelude.Text.{◌<>◌}
use issuebot.Prelude.Search.{rstrip_newlines}
use issuebot.GitHub.Models.{Comment, workpad_marker}
use issuebot.GitHub.Adapter.{
  GitHubError, Result, ok, err, Exec, pure, raise, attempt, retryable, GitHubAdapter, ◌>>=◌, ◌>>◌,
}

-- Which half of writing the note failed.
pub data Phase : Type 0 where
  read write : Phase

pub record NoteFailure : Type 0 where
  pub phase : Phase
  pub error : GitHubError

-- `workpad is None or not written(workpad.body)`
unfoldable pub needs_note : Option Comment → (String → Bool) → Bool
needs_note none written = Bool.true
needs_note (some workpad) written = not (written workpad.body)

module _ {W : Type 0} (a : GitHubAdapter W) (number : ℕ) where
  unfoldable pub append_workpad : Option Comment → String → Exec W (Unit {0})
  unfolding rstrip_newlines
  append_workpad none block = a.comment number (workpad_marker <> "\n\n" <> block <> "\n")
  append_workpad (some workpad) block =
      a.update_comment workpad.id (rstrip_newlines workpad.body <> "\n\n" <> block <> "\n")

  -- The answer of the write, and of the read before it.
  unfoldable pub noted : Result (Unit {0}) → Exec W (Option NoteFailure)
  unfolding retryable
  noted (ok _) = pure none
  noted (err e) = if retryable e then raise e else pure (some (record { phase = write; error = e }))

  unfoldable pub write_note :
      String → (String → Bool) → Result (Option Comment) → Exec W (Option NoteFailure)
  unfolding append_workpad noted needs_note retryable attempt
  write_note block written (err e) =
      if retryable e then raise e else pure (some (record { phase = read; error = e }))
  write_note block written (ok workpad) =
      if needs_note workpad written
      then attempt (append_workpad workpad block) >>= noted
      else pure none

  -- Raises what is worth trying again, and returns any other failure.
  unfoldable pub escape_note : String → (String → Bool) → Exec W (Option NoteFailure)
  unfolding write_note attempt
  escape_note block written = attempt (a.find_workpad_comment number) >>= write_note block written

  -- After a failed read the note is written blind; what fails then is only logged.
  unfoldable pub report_phase : String → Phase → Exec W (Unit {0})
  unfolding append_workpad attempt
  report_phase block read = do attempt (append_workpad none block); pure tt
  report_phase block write = pure tt

  unfoldable pub report_note_failure : String → Option NoteFailure → Exec W (Unit {0})
  unfolding report_phase
  report_note_failure block none = pure tt
  report_note_failure block (some failure) = report_phase block failure.phase
