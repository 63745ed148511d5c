-- ===== src/Orchestrator/Actions/Conflict.antt =====
-- orchestrator/actions.py: `conflict_rework`, the bounded bounce from `review` to `rework`.
use issuebot.Prelude.{ℕ, ◌+◌, String, Option, none, some, false, leb, if◌then◌else◌}
use issuebot.Prelude.Search.{contains}
use issuebot.GitHub.Models.{Instant, Issue, LinkedPr, Comment, rework}
use issuebot.GitHub.Adapter.{
  ErrorCategory, GitHubError, Result, ok, err, Exec, pure, attempt, GitHubAdapter, ◌>>=◌, ◌>>◌,
}
use issuebot.Orchestrator.Runtime.{state_label_name}
use issuebot.Events.{Event, state_changed, by_issuebot}
use issuebot.Orchestrator.Filing.Apply.{announce}
use issuebot.Orchestrator.Actions.{
  World, conflict_limit_heading, conflict_limit_block, conflict_block,
}
use issuebot.Orchestrator.Actions.Notes.{append_workpad}

pub data ConflictOutcome : Type 0 where
  reworked limit_reached limit_noted failed gave_up : ConflictOutcome

-- What the `try` gives back: an answer, or the bounces and the workpad once the label has moved.
pub data Bounce : Type 0 where
  answered : ConflictOutcome → Bounce
  moved : ℕ → Option Comment → Bounce

-- `workpad.body if workpad is not None else ""`
unfoldable pub workpad_text : Option Comment → String
workpad_text none = ""
workpad_text (some workpad) = workpad.body

-- `"gave_up" if exc.category == "response" else "failed"`
unfoldable pub outcome_of : GitHubError → ConflictOutcome
outcome_of e = elim e.category [ ErrorCategory.response ↦ gave_up | _ ↦ failed ]

unfoldable pub bounced : Issue → LinkedPr → String → Event
unfolding state_label_name
bounced issue pr to_label = state_changed (record {
  issue_number = issue.number;
  issue_identifier = issue.identifier;
  from_label = state_label_name issue;
  to_label = some to_label;
  actor = by_issuebot;
  pr_url = some pr.url;
  note = none;
})

module _ {S G : Type 0} (a : GitHubAdapter (World S G)) (issue : Issue) (pr : LinkedPr) (limit : ℕ)
    (now : Instant) where
  -- The bounces are used up: the note is written once.
  unfoldable pub at_limit : Option Comment → Exec (World S G) Bounce
  unfolding contains conflict_limit_heading append_workpad conflict_limit_block workpad_text
  at_limit workpad =
      if contains (workpad_text workpad) conflict_limit_heading
      then pure (answered limit_noted)
      else (append_workpad a issue.number workpad
            (conflict_limit_block pr.number limit now a.labels)
          >> pure (answered limit_reached))

  -- The part after the two reads.
  unfoldable pub bounce_or_note : ℕ → Option Comment → Exec (World S G) Bounce
  unfolding at_limit
  bounce_or_note bounces workpad =
      if leb limit bounces
      then at_limit workpad
      else (a.set_state issue.number rework false >> pure (moved bounces workpad))

  unfoldable pub bounce_try : Exec (World S G) Bounce
  unfolding bounce_or_note
  bounce_try = do
    bounces ← a.count_own_label_additions issue.number a.labels.rework
    workpad ← a.find_workpad_comment issue.number
    bounce_or_note bounces workpad

  unfoldable pub bounce_end : Result Bounce → Exec (World S G) ConflictOutcome
  unfolding outcome_of bounced announce append_workpad conflict_block attempt
  bounce_end (err e) = pure (outcome_of e)
  bounce_end (ok (answered outcome)) = pure outcome
  bounce_end (ok (moved bounces workpad)) = do
    announce (bounced issue pr a.labels.rework)
    attempt (
        append_workpad a issue.number workpad
          (conflict_block pr.number (bounces + 1) limit now a.labels))
    pure reworked

module _ {S G : Type 0} (a : GitHubAdapter (World S G)) (issue : Issue) (limit : ℕ)
    (now : Instant) where
  unfoldable pub conflict_rework : Exec (World S G) ConflictOutcome
  unfolding bounce_try bounce_end attempt
  conflict_rework = elim issue.linked_pr [
    | none ↦ pure failed
    | some pr ↦ attempt (bounce_try a issue pr limit now) >>= bounce_end a issue pr limit now
  ]
