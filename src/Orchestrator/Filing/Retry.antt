-- ===== src/Orchestrator/Filing/Retry.antt =====
-- A triage verdict of orchestrator/triage.py that is applied, fails and is applied again.
use issuebot.Prelude.{ℕ, List, [], ◌∷◌, Bool, any, ◌≡◌, refl, sym, arith, if◌then◌else◌}
use issuebot.Prelude.Float.{Float}
use issuebot.GitHub.Models.{Issue, SubIssue}
use issuebot.GitHub.Adapter.{
  Exec, Result, ok, err, continue, pure, GitHubAdapter, ◌>>=◌, ◌>>◌, HasSubIssues,
  HasSubIssues-GrowsByCreation,
}
use issuebot.Agent.Verdict.{SubIssueDraft, TriageVerdict, fits, split}
use issuebot.Events.Bus.{EventBus}
use issuebot.Orchestrator.Triage.{by_key, RunNote, verdict_comment}
use issuebot.Orchestrator.Filing.{file_steps}
use issuebot.Orchestrator.Filing.Growth.{drafted, Grows, Grows-refl, Grows-again}
use issuebot.Orchestrator.Filing.Loop.{Grown, file_steps-Grown}
use issuebot.Orchestrator.Filing.Quiet.{
  by_key-Knows, IsQuiet, then-IsQuiet, unless-IsQuiet, continue-Grown, children_of,
  announce-IsQuiet,
}
use issuebot.Orchestrator.Filing.Apply.{
  announce, step_text, file_verdict, moved_by_triage, finish_verdict, apply_verdict, after_runs,
}

-- The drafts that a verdict files.
unfoldable pub drafts_of : TriageVerdict → List SubIssueDraft
drafts_of verdict = elim verdict.verdict [ fits ↦ [] | split ↦ verdict.sub_issues ]

module _ {S G : Type 0} (a : GitHubAdapter ((EventBus S × S) × G)) (listed : ℕ → G → List SubIssue)
    (laws : HasSubIssues a (children_of listed)) (issue : Issue) (verdict : TriageVerdict) where
  read-Grown :
      (before : List SubIssue) (r : Result (List SubIssue)) (w : (EventBus S × S) × G)
      → ((found : List SubIssue) → r ≡ ok found → found ≡ before)
      → (children_of listed) issue.number w ≡ before
      → let (s, v) =
          continue r
            (λ cs.
              file_steps a issue.number
                (step_text a issue verdict)
                1
                (by_key [] cs)
                verdict.sub_issues)
            w in
        Grown (children_of listed) issue.number verdict.sub_issues before s v
  read-Grown before (ok cs) w h same = rw (sym same) (
      file_steps-Grown a (children_of listed) issue.number
        (HasSubIssues-GrowsByCreation a (children_of listed) issue.number laws)
        (step_text a issue verdict) 1 (by_key [] cs) verdict.sub_issues w
        (rw (h cs refl) (rw same (by_key-Knows before))))
  read-Grown before (err e) w h same = (rw same (Grows-refl verdict.sub_issues before), tt)

  file_verdict-Grown :
      (w : (EventBus S × S) × G)
      → let (r, v) = file_verdict a issue verdict w in
        Grown
          (children_of listed)
          issue.number
          (drafts_of verdict)
          (children_of listed issue.number w)
          r
          v
  unfolding file_verdict drafts_of drafted any
  file_verdict-Grown w =
      elim verdict.verdict
        as (λ t.
          let (r, v) =
            (elim t as (λ _. Exec ((EventBus S × S) × G) (List SubIssue)) [
              | fits ↦ pure []
              | split ↦ a.sub_issues issue.number >>= λ cs.
                  file_steps a issue.number (step_text a issue verdict) 1 (by_key [] cs)
                    verdict.sub_issues
            ])
              w in
          Grown (children_of listed) issue.number
            (elim t [ fits ↦ [] | split ↦ verdict.sub_issues ]) (children_of listed issue.number w)
            r v) [
              | fits ↦
                  (Grows-refl [] (children_of listed issue.number w), λ k h. absurd (ground arith))
              | split ↦
                  let m = a.sub_issues issue.number w in
                  read-Grown (children_of listed issue.number w) m.0 m.1 (laws.reads issue.number w)
                    (laws.read_only issue.number issue.number w)
            ]

  module _ {F : Type 0} ⦃f : Float F⦄ (on_swapped : (EventBus S × S) × G → (EventBus S × S) × G)
      (swaps : (w : (EventBus S × S) × G)
        → (children_of listed) issue.number (on_swapped w)
          ≡ (children_of listed) issue.number w) where
    finish_verdict-IsQuiet :
        (run : RunNote F) (swapped : Bool) (filed : List SubIssue)
        → IsQuiet
            (children_of listed)
            issue.number
            (finish_verdict a issue verdict run on_swapped swapped filed)
    unfolding finish_verdict
    finish_verdict-IsQuiet run swapped filed =
        let n = issue.number in
        let text = verdict_comment verdict filed run a.labels in
        let commented : Exec ((EventBus S × S) × G) (List SubIssue) =
          a.comment n text >> pure filed in
        let said : Exec ((EventBus S × S) × G) (Unit {0}) =
          if swapped then pure tt else announce (moved_by_triage a issue verdict) in
        let announced : Exec ((EventBus S × S) × G) (List SubIssue) = said >> commented in
        let swap : Exec ((EventBus S × S) × G) (Unit {0}) = λ w. (ok tt, on_swapped w) in
        let move = a.edit_labels n (a.labels.triage_complete ∷ []) (a.labels.triage_todo ∷ []) in
        then-IsQuiet (children_of listed) n move (swap >> announced)
          (laws.edits_labels n n (a.labels.triage_complete ∷ []) (a.labels.triage_todo ∷ []))
          (then-IsQuiet (children_of listed) n swap announced swaps (
            then-IsQuiet (children_of listed) n said commented
              (unless-IsQuiet (children_of listed) n swapped
                (announce (moved_by_triage a issue verdict))
                (announce-IsQuiet listed issue.number (moved_by_triage a issue verdict)))
              (then-IsQuiet (children_of listed) n (a.comment n text) (pure filed)
                (laws.comments n n text) (λ w. refl))))

    -- However an application of a verdict ends, the parent has lost no sub-issue, has got none but
    -- under the title of a draft, and has no two of one title unless it had before; and where it
    -- returns, every draft has its sub-issue. The adapter keeps its laws, and the callback leaves
    -- the sub-issues alone.
    pub apply_verdict-Grown :
        (run : RunNote F) (swapped : Bool) (w : (EventBus S × S) × G)
        → let (r, v) = apply_verdict a issue verdict run on_swapped swapped w in
          Grown
            (children_of listed)
            issue.number
            (drafts_of verdict)
            (children_of listed issue.number w)
            r
            v
    unfolding apply_verdict
    apply_verdict-Grown run swapped w =
        let m = file_verdict a issue verdict w in
        continue-Grown (children_of listed) issue.number (children_of listed issue.number w)
          (drafts_of verdict) m.0 m.1 (finish_verdict a issue verdict run on_swapped swapped)
          (file_verdict-Grown w) (finish_verdict-IsQuiet run swapped)

    -- Over any number of applications of a verdict, each of which may fail at any call, the parent
    -- loses no sub-issue, gets none but under the title of a draft, and has no two of one title in
    -- the end unless it had at the start. The adapter keeps its laws, and the callback leaves the
    -- sub-issues alone.
    pub apply_verdict-retried :
        (runs : List (RunNote F × Bool)) (w : (EventBus S × S) × G)
        → Grows
            (drafts_of verdict)
            (children_of listed issue.number w)
            (children_of listed issue.number (after_runs a issue verdict on_swapped runs w))
    unfolding after_runs
    apply_verdict-retried [] w = Grows-refl (drafts_of verdict) (children_of listed issue.number w)
    apply_verdict-retried ((run, swapped) ∷ runs) w =
        Grows-again (drafts_of verdict) (apply_verdict-Grown run swapped w).0
          (apply_verdict-retried runs (apply_verdict a issue verdict run on_swapped swapped w).1)
