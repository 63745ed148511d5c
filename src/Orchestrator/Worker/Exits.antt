-- ===== src/Orchestrator/Worker/Exits.antt =====
-- orchestrator/orchestrator.py: how `handle_worker_exit` reads the end of a work run. `review` is the
-- name of the label.
use issuebot.Prelude.{ℕ, String, Option, none, some, Bool, str_eq, if◌then◌else◌}
use issuebot.Prelude.Text.{◌<>◌, show}
use issuebot.GitHub.Models.{Instant, Issue, StateLabel, in_progress}
use issuebot.GitHub.State.{same_state}
use issuebot.Orchestrator.Triage.{plural}
use issuebot.Orchestrator.Runtime.{RunningEntry, StopCause, RunFigures}

pub data RunOutcome : Type 0 where
  succeeded failed timed_out stalled cancelled : RunOutcome

pub data StopReason : Type 0 where
  issue_moved max_turns issue_missing failure cancelled blocked verdict : StopReason

-- The error categories of agent/errors.py that an exit asks for, and any other by its name.
pub data AgentErrorCategory : Type 0 where
  auth_failed usage_limited run_timeout : AgentErrorCategory
  other_category : String → AgentErrorCategory

-- The fields of `RunResult` (agent/session.py) that an exit reads.
pub record RunResult (F : Type 0) : Type 0 where
  pub outcome : RunOutcome
  pub stop_reason : StopReason
  pub error_category : Option AgentErrorCategory
  pub error : Option String
  pub turns : ℕ
  pub figures : RunFigures F
  pub final_state : Option StateLabel
  pub final_issue : Option Issue
  pub log_dir : Option String
  pub blocker : Option String
  pub usage_reset_at : Option Instant
  pub usage_window : Option String

-- How the task of a run has ended.
pub data TaskEnd (F : Type 0) : Type 0 where
  task_cancelled : TaskEnd F
  task_crashed : String → TaskEnd F
  task_done : RunResult F → TaskEnd F

-- `x or default` for a text
unfoldable pub text_or : Option String → String → String
text_or none default = default
text_or (some text) default = if str_eq text "" then default else text

-- An optional text as an f-string prints it.
printed : Option String → String
printed none = "None"
printed (some text) = text

category_text : Option AgentErrorCategory → String
category_text none = "None"
category_text (some auth_failed) = "auth_failed"
category_text (some usage_limited) = "usage_limited"
category_text (some run_timeout) = "run_timeout"
category_text (some (other_category name)) = name

-- What an exit of a work run comes to.
pub data Ending : Type 0 where
  released continued auth_failure usage_limit : Ending
  escaped failed_with : String → Ending

is_in_progress : Option StateLabel → Bool
unfolding same_state
is_in_progress state = same_state state (some in_progress)

-- The branches of `handle_worker_exit` for a run that succeeded.
unfoldable pub ending_of_success :
    {F : Type 0} → String → RunningEntry → RunResult F → StopReason → Ending
unfolding is_in_progress plural text_or
ending_of_success review entry result max_turns =
    if is_in_progress result.final_state
    then escaped (
        "Turn budget exhausted: "
        <> plural result.turns "turn"
        <> " in attempt "
        <> show entry.attempt
        <> " without reaching `"
        <> review
        <> "`.")
    else continued
ending_of_success review entry result blocked =
    if is_in_progress result.final_state
    then escaped (text_or result.blocker "the session reported a blocker")
    else continued
ending_of_success review entry result _ = continued

-- And for one that did not.
unfoldable pub ending_of_error :
    {F : Type 0} → String → RunningEntry → RunResult F → Option AgentErrorCategory → Ending
unfolding is_in_progress plural category_text printed
ending_of_error review entry result (some auth_failed) = auth_failure
ending_of_error review entry result (some usage_limited) = usage_limit
ending_of_error review entry result (some run_timeout) =
    if is_in_progress result.final_state
    then escaped (
        "Wall clock exhausted: "
        <> plural result.turns "turn"
        <> " in attempt "
        <> show entry.attempt
        <> " without reaching `"
        <> review
        <> "` ("
        <> printed result.error
        <> ").")
    else failed_with ("run_timeout: " <> printed result.error)
ending_of_error review entry result category =
    failed_with (category_text category <> ": " <> printed result.error)

unfoldable pub ending_of_result :
    {F : Type 0} → String → RunningEntry → RunResult F → RunOutcome → Ending
unfolding ending_of_success ending_of_error
ending_of_result review entry result succeeded =
    ending_of_success review entry result result.stop_reason
ending_of_result review entry result _ = ending_of_error review entry result result.error_category

unfoldable pub ending_of_task : {F : Type 0} → String → RunningEntry → TaskEnd F → Ending
unfolding ending_of_result
ending_of_task review entry task_cancelled = released
ending_of_task review entry (task_crashed error) = failed_with ("worker crashed: " <> error)
ending_of_task review entry (task_done result) = ending_of_result review entry result result.outcome

-- A stop cause decides before the result does.
unfoldable pub ending_of :
    {F : Type 0} → String → RunningEntry → TaskEnd F → Option StopCause → Ending
unfolding ending_of_task printed
ending_of review entry task_cancelled cause = released
ending_of review entry task (some StopCause.stalled) =
    failed_with ("stalled: " <> printed entry.stop_detail)
ending_of review entry task (some _) = released
ending_of review entry task none = ending_of_task review entry task
