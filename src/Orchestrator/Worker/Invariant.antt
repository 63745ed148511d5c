-- ===== src/Orchestrator/Worker/Invariant.antt =====
-- The dispatch, the retries and the exits of orchestrator/orchestrator.py keep the two tables valid.
use issuebot.Prelude.{ℕ, String, Option, none, some, Bool, true, false, refl, in_strs}
use issuebot.Prelude.Float.{Float}
use issuebot.Prelude.Text.{lower}
use issuebot.GitHub.Models.{Issue, in_progress}
use issuebot.GitHub.State.{same_state}
use issuebot.GitHub.Adapter.{pure, GitHubAdapter, ◌>>=◌, ◌>>◌}
use issuebot.Orchestrator.Approval.{Assessment, approved, unapproved}
use issuebot.Orchestrator.Actions.{World, EscapeOutcome, applied, skipped, failed}
use issuebot.Orchestrator.Actions.Escapes.{claim, unapproved_escape}
use issuebot.Orchestrator.Actions.HandBack.{operator_step_escape}
use issuebot.Orchestrator.Worker.{Clock}
use issuebot.Orchestrator.Worker.Approvals.{assess_approval}
use issuebot.Orchestrator.Worker.Dispatch.{
  Accounts, Start, bind_account, start_run, start_claimed, claim_and_start, after_unapproved,
  dispatch_assessed, refuse_operator_step, dispatch, note_handed_back, drop_verdict,
}
use issuebot.Orchestrator.Worker.Effects.{outside, update}
use issuebot.Orchestrator.Worker.Tables.{
  tables, KeepsTables, outside-Keeps, then_return-Keeps, outside_then-Keeps,
}
use issuebot.Orchestrator.Worker.Reads.{assess_approval-Keeps, bind_account-Keeps}
use issuebot.Orchestrator.Worker.Moves.{
  IsValid, HasRoom, set_running-IsValid, Moves, keeps-Moves, after-Moves, if-Moves,
}

module _ {F : Type 0} ⦃f : Float F⦄ {S G : Type 0} (a : GitHubAdapter (World S G))
    (accounts : Accounts (World S G)) (clock : Clock) (start : Start) (issue : Issue) (attempt : ℕ)
    (resume_session_id : Option String) (limit : ℕ) where
  note_handed_back-Keeps :
      (outcome : EscapeOutcome)
      → KeepsTables {F = F} {S = S} {G = G} (update (note_handed_back issue outcome))
  unfolding update note_handed_back
  note_handed_back-Keeps applied u = refl
  note_handed_back-Keeps skipped u = refl
  note_handed_back-Keeps failed u = refl

  refuse_operator_step-Keeps :
      KeepsTables {F = F}
        (refuse_operator_step a accounts clock start issue attempt resume_session_id)
  unfolding refuse_operator_step
  refuse_operator_step-Keeps =
      outside_then-Keeps (operator_step_escape a issue clock.now)
        (λ outcome. update (note_handed_back issue outcome) >> pure false)
        (λ outcome.
          then_return-Keeps (update (note_handed_back issue outcome)) false
            (note_handed_back-Keeps outcome))

  -- The claimed issue is the one that was asked for: `claimed_snapshot` keeps its identifier.
  start_claimed-Moves :
      (account : Option String) (claimed : Option Issue)
      → Moves {F = F} {S = S} {G = G}
          (HasRoom limit)
          (IsValid limit)
          (start_claimed a accounts clock start issue attempt resume_session_id account claimed)
  unfolding start_claimed update start_run
  start_claimed-Moves account none u (v, room) = v
  start_claimed-Moves account (some claimed) u (v, room) =
      set_running-IsValid limit (tables u) claimed.id _ refl (v, room)

  claim_and_start-Moves :
      (found : Option String × Bool)
      → Moves {F = F} {S = S} {G = G}
          (HasRoom limit)
          (IsValid limit)
          (claim_and_start a accounts clock start issue attempt resume_session_id found)
  unfolding claim_and_start
  claim_and_start-Moves (account, false) u (v, room) = v
  claim_and_start-Moves (account, true) u p =
      if-Moves (HasRoom limit) (IsValid limit) (same_state issue.state (some in_progress))
        (start_claimed a accounts clock start issue attempt resume_session_id account (some issue))
        (outside (claim a issue)
          >>= start_claimed a accounts clock start issue attempt resume_session_id account)
        (start_claimed-Moves account (some issue))
        (after-Moves (HasRoom limit) (IsValid limit) (outside (claim a issue))
          (start_claimed a accounts clock start issue attempt resume_session_id account)
          (λ t p. p.0) (outside-Keeps (claim a issue)) (start_claimed-Moves account))
        u p

  after_unapproved-Keeps :
      (outcome : EscapeOutcome)
      → KeepsTables {F = F} {S = S} {G = G}
          (update (after_unapproved a accounts clock start issue attempt resume_session_id outcome))
  unfolding update after_unapproved note_handed_back drop_verdict
  after_unapproved-Keeps applied u = refl
  after_unapproved-Keeps skipped u = refl
  after_unapproved-Keeps failed u = refl

  dispatch_assessed-Moves :
      (verdict : Option Assessment)
      → Moves {F = F} {S = S} {G = G}
          (HasRoom limit)
          (IsValid limit)
          (dispatch_assessed a accounts clock start issue attempt resume_session_id verdict)
  unfolding dispatch_assessed
  dispatch_assessed-Moves none u (v, room) = v
  dispatch_assessed-Moves (some (approved approver at)) u p =
      after-Moves (HasRoom limit) (IsValid limit) (bind_account accounts issue)
        (claim_and_start a accounts clock start issue attempt resume_session_id) (λ t p. p.0)
        (bind_account-Keeps accounts issue) claim_and_start-Moves u p
  dispatch_assessed-Moves (some (unapproved reason approval edit)) u p =
      keeps-Moves (HasRoom limit) (IsValid limit)
        (dispatch_assessed a accounts clock start issue attempt resume_session_id
          (some (unapproved reason approval edit)))
        (outside_then-Keeps (unapproved_escape a issue reason approval clock.now)
          (λ outcome.
            update (after_unapproved a accounts clock start issue attempt resume_session_id outcome)
            >> pure false)
          (λ outcome.
            then_return-Keeps
              (update
                (after_unapproved a accounts clock start issue attempt resume_session_id outcome))
              false (after_unapproved-Keeps outcome)))
        (λ t p. p.0) u p

  pub dispatch-Moves :
      Moves {F = F} {S = S} {G = G}
        (HasRoom limit)
        (IsValid limit)
        (dispatch a accounts clock start issue attempt resume_session_id)
  unfolding dispatch
  dispatch-Moves =
      if-Moves (HasRoom limit) (IsValid limit) (in_strs (lower a.labels.operator_step) issue.labels)
        (refuse_operator_step a accounts clock start issue attempt resume_session_id)
        (assess_approval a issue a.labels.todo false
          >>= dispatch_assessed a accounts clock start issue attempt resume_session_id)
        (keeps-Moves (HasRoom limit) (IsValid limit)
          (refuse_operator_step a accounts clock start issue attempt resume_session_id)
          refuse_operator_step-Keeps (λ t p. p.0))
        (after-Moves (HasRoom limit) (IsValid limit) (assess_approval a issue a.labels.todo false)
          (dispatch_assessed a accounts clock start issue attempt resume_session_id) (λ t p. p.0)
          (assess_approval-Keeps a issue a.labels.todo false) dispatch_assessed-Moves)
