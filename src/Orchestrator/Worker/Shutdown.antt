-- ===== src/Orchestrator/Worker/Shutdown.antt =====
-- `shutdown` of orchestrator/orchestrator.py, once the tasks have ended: `ends` is how each of them did.
use issuebot.Prelude.{
  ℕ, String, Option, none, some, List, [], ◌∷◌, true, ◌≡◌, ◌≢◌, refl, arith, sym, str_eq_iff,
  in_strs, any,
}
use mathlib.Core.Path.{subst}
use issuebot.Prelude.Float.{Float}
use issuebot.Prelude.Dict.{Dict, lookup, remove, lookup-remove}
use issuebot.GitHub.Adapter.{Result, ok, err, Exec, continue, pure, GitHubAdapter, ◌>>=◌, ◌>>◌}
use issuebot.Orchestrator.Runtime.{RunningEntry, StopCause, stop}
use issuebot.Orchestrator.Actions.{World}
use issuebot.Orchestrator.Worker.{Worker, Clock, Settings}
use issuebot.Orchestrator.Worker.Exits.{TaskEnd}
use issuebot.Orchestrator.Worker.Endings.{
  Helpers, drop_running, take_running, exit_task, exit_entry, handle_worker_exit,
}
use issuebot.Orchestrator.Worker.Reconcile.{each_entry, ids_of}
use issuebot.Orchestrator.Worker.Effects.{Orch, update, inspect}
use issuebot.Orchestrator.Worker.Tables.{Tables}
use issuebot.Orchestrator.Worker.Moves.{Moves}
use issuebot.Orchestrator.Worker.Exited.{exit_kind-Moves, take_running-tables}
use issuebot.Orchestrator.Worker.Returns.{Returns, exit_kind-Returns}

module _ {F : Type 0} where
  unfoldable pub stop_running : Worker F → Worker F
  unfolding each_entry stop
  stop_running w = record w {
    stopping = true;
    running = each_entry (λ entry. stop entry StopCause.shutdown "worker stopping") w.running;
  }

  unfoldable pub drop_retries : Worker F → Worker F
  drop_retries w = record w { retries = [] }

module _ {F : Type 0} ⦃f : Float F⦄ {S G : Type 0} (a : GitHubAdapter (World S G))
    (helpers : Helpers F S G) (settings : Settings F) (clock : Clock) (seconds_of : ℕ → F)
    (ends : String → TaskEnd F) where
  unfoldable pub exit_all : List String → Exec (Orch F S G) (Unit {0})
  unfolding handle_worker_exit
  exit_all [] = pure tt
  exit_all (issue_id ∷ ids) =
      handle_worker_exit a helpers settings clock seconds_of issue_id (ends issue_id)
      >> exit_all ids

  -- `shutdown`
  unfoldable pub shutdown : Exec (Orch F S G) (Unit {0})
  unfolding stop_running inspect update exit_all ids_of drop_retries
  shutdown =
      update stop_running >> (inspect >>= λ w. exit_all (ids_of w.running)) >> update drop_retries

remove-absent : {V : Type 0} (d : Dict V) (k : String) → lookup d k ≡ none → remove d k ≡ d
unfolding lookup remove
remove-absent [] k h = refl
remove-absent ((j, v) ∷ d) k h = ground (arith, h, remove-absent d k)

remove_all : {V : Type 0} → List String → Dict V → Dict V
remove_all [] d = d
remove_all (id ∷ ids) d = remove_all ids (remove d id)

remove_all-empty :
    {V : Type 0} (ids : List String) (d : Dict V)
    → ((j : String) → lookup d j ≢ none → in_strs j ids ≡ true)
    → remove_all ids d ≡ []
unfolding remove_all lookup in_strs any
remove_all-empty [] [] h = refl
remove_all-empty [] ((j, v) ∷ d) h = ground (arith, h j, str_eq_iff j j)
remove_all-empty (id ∷ ids) d h =
    remove_all-empty ids (remove d id) (λ j k. ground (arith, k, h j, lookup-remove d id j))

ids_of-listed :
    (d : Dict RunningEntry) (j : String) → lookup d j ≢ none → in_strs j (ids_of d) ≡ true
unfolding ids_of lookup in_strs any
ids_of-listed [] j h = ground (arith, h)
ids_of-listed ((k, v) ∷ d) j h = ground (arith, h, ids_of-listed d j)

module _ {F S G : Type 0} where
  -- It has returned, with these runs in the table.
  abbrev pub Leaves : Dict RunningEntry → Result (Unit {0}) → Orch F S G → Type 0
  Leaves d r v = (r ≡ ok tt) × (v.0.running ≡ d)

  -- The exit of a run of another kind raises nothing and adds no run.
  abbrev pub AddsNone : Exec (Orch F S G) (Unit {0}) → Type 0
  AddsNone m = Returns m × ((d : Dict RunningEntry) → Moves (λ t. t.0 ≡ d) (λ t. t.0 ≡ d) m)

  then-Leaves :
      (n : Exec (Orch F S G) (Unit {0})) (d e : Dict RunningEntry) (r : Result (Unit {0}))
      (v : Orch F S G)
      → Leaves d r v
      → ((w : Orch F S G) → w.0.running ≡ d → Leaves e (n w).0 (n w).1)
      → let (s, w) = continue r (λ _. n) v in Leaves e s w
  then-Leaves n d e (ok tt) v h k = k v h.1
  then-Leaves n d e (err _) v h k = ground (arith, h.0)

module _ {F : Type 0} ⦃f : Float F⦄ {S G : Type 0} (a : GitHubAdapter (World S G))
    (helpers : Helpers F S G) (settings : Settings F) (clock : Clock) (seconds_of : ℕ → F)
    (ends : String → TaskEnd F)
    (others : (entry : RunningEntry) (end : TaskEnd F)
      → AddsNone (helpers.exit_other entry end)) where
  exit_task-Leaves :
      (id : String) (end : TaskEnd F) (entry : RunningEntry) (task : Option ℕ) (u : Orch F S G)
      → let (r, v) = exit_task a helpers settings clock seconds_of id end entry task u in
        Leaves (remove u.0.running id) r v
  unfolding exit_task update drop_running
  exit_task-Leaves id end entry none u = (refl, refl)
  exit_task-Leaves id end entry (some _) u =
      let taken : Orch F S G = (take_running settings clock seconds_of id entry end u.0, u.1) in
      let P = λ (t : Tables). t.0 ≡ remove u.0.running id in
      let (returns, adds) = others entry end in
      (
        (exit_kind-Returns a helpers settings clock entry end entry.kind returns taken).1,
        exit_kind-Moves a helpers settings clock entry P P (λ t p. p) (λ t plan p. p) end entry.kind
            (adds (remove u.0.running id)) taken
            (take_running-tables a helpers settings clock seconds_of id end entry u.0).0,
      )

  exit_entry-Leaves :
      (id : String) (end : TaskEnd F) (u : Orch F S G) (found : Option RunningEntry)
      → lookup u.0.running id ≡ found
      → let (r, v) = exit_entry a helpers settings clock seconds_of id end found u in
        Leaves (remove u.0.running id) r v
  unfolding exit_entry
  exit_entry-Leaves id end u none h = (refl, sym (remove-absent u.0.running id h))
  exit_entry-Leaves id end u (some entry) h = exit_task-Leaves id end entry entry.task u

  handle_worker_exit-Leaves :
      (id : String) (end : TaskEnd F) (u : Orch F S G)
      → let (r, v) = handle_worker_exit a helpers settings clock seconds_of id end u in
        Leaves (remove u.0.running id) r v
  unfolding handle_worker_exit inspect
  handle_worker_exit-Leaves id end u = exit_entry-Leaves id end u (lookup u.0.running id) refl

  exit_all-Leaves :
      (ids : List String) (u : Orch F S G)
      → let (r, v) = exit_all a helpers settings clock seconds_of ends ids u in
        Leaves (remove_all ids u.0.running) r v
  unfolding exit_all remove_all
  exit_all-Leaves [] u = (refl, refl)
  exit_all-Leaves (id ∷ ids) u =
      let (r, v) = handle_worker_exit a helpers settings clock seconds_of id (ends id) u in
      then-Leaves (exit_all a helpers settings clock seconds_of ends ids) (remove u.0.running id)
        (remove_all ids (remove u.0.running id)) r v (handle_worker_exit-Leaves id (ends id) u)
        (λ w e.
          subst
            (λ d.
              let (s, x) = exit_all a helpers settings clock seconds_of ends ids w in
              Leaves (remove_all ids d) s x)
            e (exit_all-Leaves ids w))

  dropped :
      (r : Result (Unit {0})) (v : Orch F S G)
      → Leaves [] r v
      → let (s, w) = continue r (λ _. update drop_retries) v in
        (s ≡ ok tt) × (w.0.running ≡ []) × (w.0.retries ≡ [])
  unfolding update drop_retries
  dropped (ok tt) v h = (refl, h.1, refl)
  dropped (err _) v h = ground (arith, h.0)

  -- A shutdown returns, however the runs have ended and whatever GitHub answers: no issue runs and
  -- none waits for a retry. The exits of a triage run and of a parent
  -- review are assumed to raise nothing and to add no run.
  pub shutdown-empty :
      (u : Orch F S G)
      → let (r, v) = shutdown a helpers settings clock seconds_of ends u in
        (r ≡ ok tt) × (v.0.running ≡ []) × (v.0.retries ≡ [])
  unfolding shutdown update inspect
  shutdown-empty u =
      let u' : Orch F S G = (stop_running u.0, u.1) in
      let ids = ids_of u'.0.running in
      let (r, v) = exit_all a helpers settings clock seconds_of ends ids u' in
      dropped r v (
        subst (λ d. Leaves d r v) (remove_all-empty ids u'.0.running (ids_of-listed u'.0.running))
          (exit_all-Leaves ids u'))
