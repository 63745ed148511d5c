-- ===== src/Orchestrator/Worker/Effects.antt =====
-- Methods of `Orchestrator` as programs: the state is the worker beside its world.
use issuebot.GitHub.Adapter.{ok, Exec}
use issuebot.Orchestrator.Actions.{World}
use issuebot.Orchestrator.Worker.{Worker}

abbrev pub Orch : Type 0 → Type 0 → Type 0 → Type 0
Orch F S G = Worker F × World S G

module _ {F S G : Type 0} where
  -- A call that does not read or change the worker.
  unfoldable pub outside : {A : Type 0} → Exec (World S G) A → Exec (Orch F S G) A
  outside m (w, g) = let (r, g') = m g in (r, (w, g'))

  unfoldable pub update : (Worker F → Worker F) → Exec (Orch F S G) (Unit {0})
  update change (w, g) = (ok tt, (change w, g))

  unfoldable pub inspect : Exec (Orch F S G) (Worker F)
  inspect (w, g) = (ok w, (w, g))
