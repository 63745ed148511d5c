-- ===== src/Orchestrator/Admission/Gate/Ceilings.antt =====
-- `agent.max_attempts` of orchestrator/admission.py, over the calls between two claims.
use issuebot.Prelude.{ℕ, ◌-◌, ◌≤◌, ◌<◌, String, none, some, List, ◌≡◌, ◌≢◌, ap, arith}
use issuebot.Prelude.Float.{Float}
use issuebot.Prelude.Dict.{lookup}
use issuebot.GitHub.Models.{Issue}
use issuebot.Orchestrator.Admission.Ledger.{
  IssueLedger, Ledger, Call, get, run, put, observed, seeded_chain,
}
use issuebot.Orchestrator.Admission.Ledger.Bounds.{IsValid}
use issuebot.Orchestrator.Admission.Ledger.Reads.{get-or_empty, lookup-put_self}
use issuebot.Orchestrator.Admission.Ledger.Chain.{KeepsChain, count_failed, failures-run}
use issuebot.Orchestrator.Admission.Gate.{AdmissionRequest, admitted, RunKind, admit}
use issuebot.GitHub.State.{is_active}

module _ {F : Type 0} ⦃f : Float F⦄ where
  -- With an issue in hand, a work run is admitted only while its chain is below the ceiling, and as at
  -- most the `max_attempts`-th attempt.
  pub admitted-below_ceiling :
      (r : AdmissionRequest F) (issue : Issue) (n : ℕ) (e : IssueLedger F)
      → r.issue ≡ some issue
      → r.kind ≡ RunKind.work
      → admit r ≡ admitted n e
      → (r.ledger.failures < r.max_attempts) × (n ≤ r.max_attempts)
  unfolding admit is_active
  admitted-below_ceiling r issue n e i k h = ground arith

  -- Once `max_attempts` work runs of an issue have failed, the gate admits no further work run of
  -- it, whatever its labels say and whatever else the ledger was told, as long as no call has
  -- cleared or forgotten the issue and the cap has not evicted it.
  pub attempts_ceiling :
      (l : Ledger F) (cs : List (Call F)) (r : AdmissionRequest F) (issue : Issue) (n : ℕ)
      (e : IssueLedger F)
      → lookup (run l cs).evicted issue.identifier ≡ none
      → KeepsChain issue.identifier cs
      → r.issue ≡ some issue
      → r.kind ≡ RunKind.work
      → r.ledger ≡ get (run l cs) issue.identifier
      → r.max_attempts ≤ count_failed issue.identifier cs
      → admit r ≢ admitted n e
  attempts_ceiling l cs r issue n e ev k i w g m h =
      let below = (admitted-below_ceiling r issue n e i w h).0 in
      let same = ap (λ (x : IssueLedger F). x.failures) g in
      omega (arith, below, same, failures-run l cs issue.identifier ev k)

  -- On a valid ledger a chain that is below the ceiling stays below it when a chain from before the
  -- process is read, so that this never spends the last attempt.
  pub observed-below_ceiling :
      (l : Ledger F) (i : String) (seen max_attempts : ℕ)
      → IsValid l
      → (get l i).failures < max_attempts
      → (get (observed l i seen max_attempts) i).failures < max_attempts
  unfolding observed seeded_chain
  observed-below_ceiling l i seen max_attempts v h = ground (
    arith,
    lookup-put_self l i (record (get l i) { failures = seeded_chain (seen - 1) max_attempts })
        v.room,
    get-or_empty (put l i (record (get l i) { failures = seeded_chain (seen - 1) max_attempts })) i,
  )
