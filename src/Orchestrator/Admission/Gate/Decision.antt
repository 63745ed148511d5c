-- ===== src/Orchestrator/Admission/Gate/Decision.antt =====
-- `admit` of orchestrator/admission.py against a description of who may claim what.
use issuebot.Prelude.{
  ◌+◌, Option, none, some, List, [], ◌∷◌, find, Bool, true, false, not, ◌&&◌, leb, ◌≡◌, arith,
}
use issuebot.Prelude.Int.{not_pos}
use issuebot.Prelude.Float.{Float}
use issuebot.GitHub.State.{is_active}
use issuebot.Orchestrator.Admission.Gate.{
  AdmissionRequest, Admission, admitted, refused, RefusalKind, RetryKind, is_work, is_todo, wait_of,
  admit,
}

is_some {ℓ} : {A : Type ℓ} → Option A → Bool
is_some none = false
is_some (some _) = true

-- The kinds in the order in which they outrank each other.
abbrev pub precedence : List RefusalKind
precedence =
    RefusalKind.stopping ∷ RefusalKind.hold ∷ RefusalKind.slots ∷ RefusalKind.busy
    ∷ RefusalKind.inactive ∷ RefusalKind.order ∷ RefusalKind.attempts ∷ RefusalKind.spend ∷ []

module _ {F : Type 0} ⦃f : Float F⦄ where
  -- The cap on what the issue may cost is set and reached.
  unfoldable pub over_cost : AdmissionRequest F → Bool
  over_cost r = f.lt f.zero_f r.max_issue_cost_usd && f.le r.max_issue_cost_usd r.ledger.cost_usd

  -- Whether a refusal of this kind applies to the request, with no regard to the other kinds.
  unfoldable pub applies : RefusalKind → AdmissionRequest F → Bool
  unfolding over_cost is_some
  applies RefusalKind.stopping r = r.stopping
  applies RefusalKind.hold r = is_some r.hold
  applies RefusalKind.slots r = not_pos r.slots
  applies RefusalKind.busy r = r.busy
  applies RefusalKind.inactive r = elim r.issue [
    | none ↦ false
    | some issue ↦ is_work r.kind && not (issue.dispatchable && is_active issue.state)
  ]
  applies RefusalKind.order r = elim r.issue [
    | none ↦ false
    | some issue ↦ is_work r.kind && (is_todo issue.state && is_some r.order)
  ]
  applies RefusalKind.attempts r =
      is_some r.issue && (is_work r.kind && leb r.max_attempts r.ledger.failures)
  applies RefusalKind.spend r = is_some r.issue && over_cost r

  -- The kind of a refusal.
  unfoldable pub refusal : Admission F → Option RefusalKind
  refusal (admitted attempt_number ledger) = none
  refusal (refused kind reason wait) = some kind

  -- The gate answers with the first kind of refusal that applies, in the order in which the kinds
  -- outrank each other, and admits exactly when none applies.
  pub admit-decision :
      (r : AdmissionRequest F) → refusal (admit r) ≡ find (λ k. applies k r) precedence
  unfolding refusal admit applies find is_active
  admit-decision r = ground arith

  -- How a caller that can wait requeues: with the hold, for a slot, for the step's turn, or not.
  unfoldable pub requeue_kind : RefusalKind → AdmissionRequest F → Option RetryKind
  requeue_kind RefusalKind.hold r = elim r.hold [ none ↦ none | some h ↦ some (wait_of h.kind) ]
  requeue_kind RefusalKind.slots r = some RetryKind.slots
  requeue_kind RefusalKind.order r = some RetryKind.order
  requeue_kind _ r = none

  -- What the answer carries: an admission the number after the ledger's failures and the ledger
  -- itself, a refusal the way to wait for it.
  unfoldable pub Carries : AdmissionRequest F → Admission F → Type 0
  Carries r (admitted n e) = (n ≡ r.ledger.failures + 1) × (e ≡ r.ledger)
  Carries r (refused kind reason wait) = wait ≡ requeue_kind kind r

  -- An admission carries the attempt number after the ledger's failures and the ledger as it was, and a
  -- refusal says how its caller may wait for it.
  pub admit-Carries : (r : AdmissionRequest F) → Carries r (admit r)
  unfolding Carries admit requeue_kind
  admit-Carries r = ground arith
