-- ===== src/GitHub/State/Machine.antt =====
-- The transitions of github/state.py: who may move an issue where.
use issuebot.Prelude.{Option, none, some, Bool, true, false, ◌||◌, ◌≡◌, ◌≢◌, ◌⊎◌, arith}
use issuebot.GitHub.Models.{StateLabel, todo, in_progress, review, complete, Issue}
use issuebot.GitHub.State.{
  Actor, human, issuebot_actor, agent, is_allowed, is_active, is_terminal, next_state_for,
}

-- Of every allowed move: it leaves no complete state and goes elsewhere; only a person queues work;
-- only issuebot claims it, from a state it may be claimed in, or completes it; and the agent does
-- nothing but hand work in progress over for review.
pub is_allowed-by :
    (s : Option StateLabel) (t : StateLabel) (a : Actor)
    → is_allowed s t a ≡ true
    → (is_terminal s ≡ false)
      × (s ≢ some t)
      × ((t ≢ todo) ⊎ (a ≡ human))
      × ((t ≢ in_progress) ⊎ (a ≡ issuebot_actor) × (is_active s ≡ true))
      × ((t ≢ complete) ⊎ (a ≡ issuebot_actor))
      × ((a ≢ agent) ⊎ (s ≡ some in_progress) × (t ≡ review))
unfolding is_allowed is_terminal is_active
is_allowed-by s t a h = ground arith

-- The label that dispatch sets is an allowed move of issuebot's, or the one the issue has already.
pub next_state_for-allowed :
    (issue : Issue) (t : StateLabel)
    → next_state_for issue ≡ some t
    → (issue.state ≡ some t) ⊎ (is_allowed issue.state t issuebot_actor ≡ true)
unfolding next_state_for is_allowed
next_state_for-allowed issue t h = ground arith

-- A claim is issuebot's own move to `in_progress`.
unfoldable pub is_claim : StateLabel → Actor → Bool
is_claim in_progress issuebot_actor = true
is_claim _ _ = false

-- The states that an issue can be in after allowed moves from no label, and whether issuebot has
-- claimed it on the way.
pub data Reach : Option StateLabel → Bool → Type 0 where
  unlabelled : Reach none false
  moved :
      {s : Option StateLabel} {claimed : Bool} (t : StateLabel) (a : Actor)
      → Reach s claimed
      → is_allowed s t a ≡ true
      → Reach (some t) (claimed || is_claim t a)

-- Every state but `todo` and no label.
unfoldable pub past_queue : Option StateLabel → Bool
past_queue none = false
past_queue (some todo) = false
past_queue (some _) = true

-- Along allowed moves from no label, no issue is in progress, in review, in rework or complete unless
-- issuebot itself has moved it to in progress on the way.
pub Reach-claimed :
    {s : Option StateLabel} {claimed : Bool}
    → Reach s claimed
    → past_queue s ≡ true
    → claimed ≡ true
unfolding past_queue is_allowed is_claim
Reach-claimed unlabelled p = cc
Reach-claimed (moved {s = s} {claimed = c} t a r h) p = ground (arith, Reach-claimed r)
