-- ===== src/Orchestrator/Holds/Outage.antt =====
-- The GitHub hold of orchestrator/orchestrator.py over any run of polls.
use issuebot.Prelude.{
  ℕ, suc, String, Option, none, some, List, [], ◌∷◌, Bool, true, false, ◌≡◌, refl, arith, leb,
}
use issuebot.GitHub.Models.{Instant}
use issuebot.GitHub.Adapter.{GitHubError}
use issuebot.Orchestrator.Holds.{
  Holds, no_holds, max_fetch_failures, note_fetch_failure, note_fetch_success, note_fetch_skipped,
  forget_fetch_failures,
}

-- What a tick has to say of GitHub.
pub data Poll : Type 0 where
  -- the error, the time, and what the status page says
  poll_failed : GitHubError → Instant → Option String → Poll
  poll_answered poll_skipped : Poll

unfoldable pub note_poll : Holds → Poll → Holds
unfolding note_fetch_failure note_fetch_success note_fetch_skipped
note_poll h (poll_failed error now status) = note_fetch_failure h error now status
note_poll h poll_answered = note_fetch_success h
note_poll h poll_skipped = note_fetch_skipped h

unfoldable pub note_polls : Holds → List Poll → Holds
unfolding note_poll
note_polls h [] = h
note_polls h (poll ∷ polls) = note_polls (note_poll h poll) polls

-- The failures at the end of a run, on top of those before it.
unfoldable pub trailing : ℕ → List Poll → ℕ
trailing n [] = n
trailing n (poll_failed _ _ _ ∷ polls) = trailing (suc n) polls
trailing n (_ ∷ polls) = trailing 0 polls

unfoldable pub is_held : Option String → Bool
is_held none = false
is_held (some _) = true

-- The count and the block say the same.
Agrees : ℕ → Holds → Type 0
unfolding is_held
Agrees n h = (h.fetch_failures ≡ n) × (is_held h.github_block ≡ leb max_fetch_failures n)

fails-Agrees :
    (n : ℕ) (h : Holds) (error : GitHubError) (now : Instant) (status : Option String)
    → Agrees n h
    → Agrees (suc n) (note_fetch_failure h error now status)
unfolding Agrees note_fetch_failure is_held
fails-Agrees n h error now status a = ground arith

forgets-Agrees : (h : Holds) → Agrees 0 (forget_fetch_failures h)
unfolding Agrees forget_fetch_failures is_held
forgets-Agrees h = (refl, refl)

note_polls-Agrees :
    (n : ℕ) (h : Holds) (polls : List Poll)
    → Agrees n h
    → Agrees (trailing n polls) (note_polls h polls)
unfolding note_polls note_poll trailing note_fetch_success note_fetch_skipped
note_polls-Agrees n h [] a = a
note_polls-Agrees n h (poll_failed error now status ∷ polls) a =
    note_polls-Agrees (suc n) (note_fetch_failure h error now status) polls
      (fails-Agrees n h error now status a)
note_polls-Agrees n h (poll_answered ∷ polls) a =
    note_polls-Agrees 0 (forget_fetch_failures h) polls (forgets-Agrees h)
note_polls-Agrees n h (poll_skipped ∷ polls) a =
    note_polls-Agrees 0 (forget_fetch_failures h) polls (forgets-Agrees h)

-- After any run of polls since the start the count is that of the failures at its end, and GitHub holds
-- dispatch exactly when these are three or more.
pub note_polls-trailing :
    (polls : List Poll)
    → let h = note_polls no_holds polls in
      (h.fetch_failures ≡ trailing 0 polls)
      × (is_held h.github_block ≡ leb max_fetch_failures (trailing 0 polls))
unfolding Agrees is_held
note_polls-trailing polls = note_polls-Agrees 0 no_holds polls (refl, refl)
