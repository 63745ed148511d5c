-- ===== src/GitHub/State.antt =====
-- github/state.py: the label state machine as data, plus pure helpers over it.
pub mod Machine
pub mod Outcomes
use issuebot.Prelude.{
  ℕ, Option, none, some, List, [], ◌∷◌, Bool, true, false, ◌&&◌, any, in_strs, ◌==◌, if◌then◌else◌,
}
use issuebot.Prelude.Text.{lower, strip}
use issuebot.Config.{GitHubLabels}
use issuebot.GitHub.Models.{
  StateLabel, todo, in_progress, review, rework, complete, same_role, Issue, LinkedPr, pr_merged,
}

pub data Actor : Type 0 where
  human issuebot_actor agent : Actor

pub data ClosedOutcome : Type 0 where
  completed no_change cancelled : ClosedOutcome

pub record Transition : Type 0 where
  pub current : Option StateLabel
  pub target : StateLabel
  pub actor : Actor

actor_code : Actor → ℕ
actor_code human = 0
actor_code issuebot_actor = 1
actor_code agent = 2

unfoldable pub same_state : Option StateLabel → Option StateLabel → Bool
unfolding same_role
same_state none none = true
same_state (some a) (some b) = same_role a b
same_state _ _ = false

same_transition : Transition → Transition → Bool
unfolding same_state actor_code
same_transition t u =
    same_state t.current u.current
    && same_role t.target u.target
    && actor_code t.actor == actor_code u.actor

unfoldable pub transitions : List Transition
transitions =
    record { current = none; target = todo; actor = human }
    ∷ record { current = some todo; target = in_progress; actor = issuebot_actor }
    ∷ record { current = some rework; target = in_progress; actor = issuebot_actor }
    ∷ record { current = some in_progress; target = review; actor = agent }
    ∷ record { current = some in_progress; target = review; actor = issuebot_actor }
    ∷ record { current = some review; target = rework; actor = human }
    ∷ record { current = some review; target = rework; actor = issuebot_actor }
    ∷ record { current = some review; target = todo; actor = human }
    ∷ record { current = some in_progress; target = todo; actor = human }
    ∷ record { current = some review; target = complete; actor = issuebot_actor }
    ∷ record { current = some in_progress; target = complete; actor = issuebot_actor }
    ∷ []

-- `(current, target, actor) in TRANSITIONS`
unfoldable pub is_allowed : Option StateLabel → StateLabel → Actor → Bool
unfolding transitions same_transition any
is_allowed current target actor =
    any (same_transition (record { current = current; target = target; actor = actor })) transitions

-- `state in ACTIVE_STATES`
unfoldable pub is_active : Option StateLabel → Bool
is_active (some todo) = true
is_active (some rework) = true
is_active (some in_progress) = true
is_active _ = false

-- `state in TERMINAL_STATES`
unfoldable pub is_terminal : Option StateLabel → Bool
is_terminal (some complete) = true
is_terminal _ = false

-- The label the orchestrator sets when it dispatches this issue, or none if it must not.
unfoldable pub next_state_for : Issue → Option StateLabel
unfolding is_active
next_state_for issue = if is_active issue.state then some in_progress else none

unfoldable pub carries_no_fault : Issue → GitHubLabels → Bool
unfolding strip lower in_strs
carries_no_fault issue labels = in_strs (lower (strip labels.no_fault)) issue.labels

-- `pr is not None and pr.state == "merged"`
merged : Option LinkedPr → Bool
merged none = false
merged (some pr) = elim pr.state [ pr_merged ↦ true | _ ↦ false ]

unfoldable pub classify_closed : Issue → GitHubLabels → ClosedOutcome
unfolding merged carries_no_fault
classify_closed issue labels =
    if merged issue.linked_pr
    then completed
    else if carries_no_fault issue labels
    then no_change
    else cancelled
