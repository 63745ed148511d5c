-- ===== src/Orchestrator/Holds/Probes.antt =====
-- The authentication hold of orchestrator/orchestrator.py over any run of probes.
use issuebot.Prelude.{
  suc, ◌+◌, ◌≤◌, ◌<◌, none, List, [], ◌∷◌, ◌≡◌, ◌≢◌, refl, ◌∙◌, arith, inl, inr, length, All, ◌⊎◌,
}
use issuebot.Orchestrator.Holds.{
  Holds, max_unreadable_auth_probes, ClaudeAuth, logged_out, refresh_auth_hold, release_hold,
  probed, still_held,
}

-- Neither the probing nor the gate, which reads the reason, sees an authentication hold.
abbrev pub IsLifted : Holds → Type 0
IsLifted h = (h.auth_block ≡ none) × (h.auth_reason ≡ none)

-- One probe a tick.
unfoldable pub run_probes : Holds → List ClaudeAuth → Holds
unfolding refresh_auth_hold
run_probes h [] = h
run_probes h (probe ∷ probes) = run_probes (refresh_auth_hold h probe).1 probes

refresh-IsLifted :
    (h : Holds) (probe : ClaudeAuth) → IsLifted h → IsLifted (refresh_auth_hold h probe).1
unfolding refresh_auth_hold
refresh-IsLifted h probe e = ground arith

run_probes-IsLifted :
    (h : Holds) (probes : List ClaudeAuth) → IsLifted h → IsLifted (run_probes h probes)
unfolding run_probes
run_probes-IsLifted h [] e = e
run_probes-IsLifted h (probe ∷ probes) e =
    run_probes-IsLifted (refresh_auth_hold h probe).1 probes (refresh-IsLifted h probe e)

-- A probe that does not say that nobody is logged in releases the hold, or counts towards giving up.
probe-counts :
    (h : Holds) (probe : ClaudeAuth)
    → probe.verdict ≢ logged_out
    → h.auth_block ≢ none
    → let h' = (refresh_auth_hold h probe).1 in
      IsLifted h'
      ⊎ ((h'.auth_block ≢ none)
          × (h'.unreadable_auth_probes ≡ suc h.unreadable_auth_probes)
          × (suc h.unreadable_auth_probes < max_unreadable_auth_probes))
unfolding refresh_auth_hold probed release_hold still_held
probe-counts h probe n held = ground arith

gives_up :
    (h : Holds) (probes : List ClaudeAuth)
    → All (λ probe. probe.verdict ≢ logged_out) probes
    → 1 ≤ length probes
    → max_unreadable_auth_probes ≤ h.unreadable_auth_probes + length probes
    → h.auth_block ≢ none
    → IsLifted (run_probes h probes)
unfolding run_probes
gives_up h [] all some_left enough held = absurd (omega arith)
gives_up h (probe ∷ probes) all some_left enough held =
    let h' = (refresh_auth_hold h probe).1 in
    elim (probe-counts h probe all.0 held) [
      | inl e ↦ run_probes-IsLifted h' probes e
      | inr (held', e, below) ↦ gives_up h' probes all.1 (omega arith) (omega (arith, e)) held'
    ]

-- An authentication hold does not last: whatever its state, ten probes of which none says that nobody
-- is logged in lift it, the block that is probed and the reason that the gate reads.
pub run_probes-lifts :
    (h : Holds) (probes : List ClaudeAuth)
    → All (λ probe. probe.verdict ≢ logged_out) probes
    → 10 ≤ length probes
    → h.auth_block ≢ none
    → IsLifted (run_probes h probes)
run_probes-lifts h probes all enough = gives_up h probes all (omega arith) (omega arith)

refresh-logged_out :
    (h : Holds) (probe : ClaudeAuth)
    → probe.verdict ≡ logged_out
    → (refresh_auth_hold h probe).1.auth_block ≡ h.auth_block
unfolding refresh_auth_hold probed still_held
refresh-logged_out h probe e = ground arith

-- While every probe says that nobody is logged in, the hold stands as it was.
pub run_probes-held :
    (h : Holds) (probes : List ClaudeAuth)
    → All (λ probe. probe.verdict ≡ logged_out) probes
    → (run_probes h probes).auth_block ≡ h.auth_block
unfolding run_probes
run_probes-held h [] all = refl
run_probes-held h (probe ∷ probes) all =
    run_probes-held (refresh_auth_hold h probe).1 probes all.1 ∙ refresh-logged_out h probe all.0
