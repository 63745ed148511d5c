-- ===== src/Orchestrator/ParentReview/Filed.antt =====
-- A parent review's verdict of orchestrator/parent_review.py that is applied, fails and is applied again.
use issuebot.Prelude.{ℕ, ◌+◌, List, [], ◌∷◌, Bool, length, ◌≡◌, refl, ap, sym, if◌then◌else◌}
use issuebot.Prelude.Float.{Float}
use issuebot.GitHub.Models.{Issue, SubIssue}
use issuebot.GitHub.Adapter.{
  Exec, Result, ok, err, continue, pure, GitHubAdapter, ◌>>=◌, ◌>>◌, HasSubIssues, GrowsByCreation,
}
use issuebot.Agent.Verdict.{SubIssueDraft, ParentReviewVerdict, next, met, gap}
use issuebot.Events.Bus.{EventBus}
use issuebot.Orchestrator.Triage.{by_key, RunNote}
use issuebot.Orchestrator.Filing.{file_steps}
use issuebot.Orchestrator.Filing.Growth.{Grows-refl}
use issuebot.Orchestrator.Filing.Loop.{Grown, file_steps-Grown}
use issuebot.Orchestrator.Filing.Apply.{announce}
use issuebot.Orchestrator.Filing.Quiet.{
  by_key-Knows, IsQuiet, then-IsQuiet, unless-IsQuiet, quiet-Grown, continue-Grown, children_of,
  announce-IsQuiet,
}
use issuebot.Orchestrator.ParentReview.{ReviewCounts, parent_review_comment}
use issuebot.Orchestrator.ParentReview.Apply.{
  unseen, review_step_text, file_review, parent_met, parent_completed, moved_by_review,
  close_parent, swap_labels, act_on_review, apply_parent_review,
}

-- The sub-issues of each parent that a review did not see.
abbrev pub unseen_of : {G : Type 0} → (ℕ → G → List SubIssue) → List ℕ → ℕ → G → List SubIssue
unseen_of listed seen parent g = unseen seen (listed parent g)

-- The drafts that a review files.
unfoldable pub filed_by_review : ParentReviewVerdict → List SubIssueDraft
filed_by_review verdict = elim verdict.verdict [ met ↦ [] | _ ↦ verdict.sub_issues ]

module _ {S G : Type 0} (a : GitHubAdapter ((EventBus S × S) × G)) (listed : ℕ → G → List SubIssue)
    (issue : Issue) (verdict : ParentReviewVerdict) (seen : List ℕ)
    (laws : HasSubIssues a (children_of listed))
    (grows : GrowsByCreation a (children_of (unseen_of listed seen)) issue.number) where
  abbrev fresh : ℕ → (EventBus S × S) × G → List SubIssue
  fresh = children_of (unseen_of listed seen)

  read_review-Grown :
      (before : List SubIssue) (r : Result (List SubIssue)) (w : (EventBus S × S) × G)
      → ((found : List SubIssue) → r ≡ ok found → unseen seen found ≡ before)
      → fresh issue.number w ≡ before
      → let (s, v) =
          continue r
            (λ cs.
              file_steps a issue.number
                (review_step_text a issue verdict seen)
                (length seen + 1)
                (by_key [] (unseen seen cs))
                verdict.sub_issues)
            w in
        Grown fresh issue.number verdict.sub_issues before s v
  read_review-Grown before (ok cs) w h same = rw (sym same) (
      file_steps-Grown a fresh issue.number grows (review_step_text a issue verdict seen)
        (length seen + 1) (by_key [] (unseen seen cs)) verdict.sub_issues w
        (rw (h cs refl) (rw same (by_key-Knows before))))
  read_review-Grown before (err e) w h same = (rw same (Grows-refl verdict.sub_issues before), tt)

  file_review-Grown :
      (w : (EventBus S × S) × G)
      → let (r, v) = file_review a issue verdict seen w in
        Grown fresh issue.number verdict.sub_issues (fresh issue.number w) r v
  unfolding file_review
  file_review-Grown w =
      let m = a.sub_issues issue.number w in
      read_review-Grown (fresh issue.number w) m.0 m.1
        (λ found h. ap (unseen seen) (laws.reads issue.number w found h))
        (ap (unseen seen) (laws.read_only issue.number issue.number w))

  module _ (on_moved : (EventBus S × S) × G → (EventBus S × S) × G)
      (moves : (w : (EventBus S × S) × G) → fresh issue.number (on_moved w) ≡ fresh issue.number w)
      (moved : Bool) where
    abbrev swap : Exec ((EventBus S × S) × G) (Unit {0})
    swap w = (ok tt, on_moved w)

    close_parent-IsQuiet :
        IsQuiet fresh issue.number (close_parent a issue verdict seen on_moved moved)
    unfolding close_parent
    close_parent-IsQuiet =
        let n = issue.number in
        let met_event = parent_met a issue verdict seen in
        let completed = parent_completed a issue verdict seen in
        let said : Exec ((EventBus S × S) × G) (Unit {0}) =
          announce met_event >> announce completed in
        let labels = a.labels.complete ∷ a.labels.triage_complete ∷ [] in
        then-IsQuiet fresh n (a.edit_labels n labels (a.labels.triage_todo ∷ []))
          (a.close_as_completed n >> (swap >> said))
          (grows.edits_labels n labels (a.labels.triage_todo ∷ []))
          (then-IsQuiet fresh n (a.close_as_completed n) (swap >> said) (grows.closes n) (
            then-IsQuiet fresh n swap said moves (
              then-IsQuiet fresh n (announce met_event) (announce completed)
                (announce-IsQuiet (unseen_of listed seen) n met_event)
                (announce-IsQuiet (unseen_of listed seen) n completed))))

    swap_labels-IsQuiet :
        IsQuiet fresh issue.number (swap_labels a issue verdict seen on_moved moved)
    unfolding swap_labels
    swap_labels-IsQuiet =
        let n = issue.number in
        let event = moved_by_review a issue verdict seen in
        let said : Exec ((EventBus S × S) × G) (Unit {0}) =
          if moved then pure tt else announce event in
        let add = a.labels.triage_complete ∷ [] in
        let remove = a.labels.triage_todo ∷ [] in
        then-IsQuiet fresh n (a.edit_labels n add remove) (swap >> said)
          (grows.edits_labels n add remove)
          (then-IsQuiet fresh n swap said moves (
            unless-IsQuiet fresh n moved (announce event)
              (announce-IsQuiet (unseen_of listed seen) n event)))

    -- A `next` or a `gap`.
    filing-Grown :
        (w : (EventBus S × S) × G)
        → let (r, v) =
            (file_review a issue verdict seen >>= λ filed.
            swap_labels a issue verdict seen on_moved moved >> pure filed)
              w in
          Grown fresh issue.number verdict.sub_issues (fresh issue.number w) r v
    filing-Grown w =
        let m = file_review a issue verdict seen w in
        continue-Grown fresh issue.number (fresh issue.number w) verdict.sub_issues m.0 m.1
          (λ filed. swap_labels a issue verdict seen on_moved moved >> pure filed)
          (file_review-Grown w)
          (λ filed.
            then-IsQuiet fresh issue.number (swap_labels a issue verdict seen on_moved moved)
              (pure filed) swap_labels-IsQuiet (λ v. refl))

    -- A `met`.
    closing-Grown :
        (w : (EventBus S × S) × G)
        → let (r, v) =
            ((if moved then pure tt else close_parent a issue verdict seen on_moved moved)
                >> pure [])
              w in
          Grown fresh issue.number [] (fresh issue.number w) r v
    closing-Grown w =
        let n = issue.number in
        let close = close_parent a issue verdict seen on_moved moved in
        let unless : Exec ((EventBus S × S) × G) (Unit {0}) = if moved then pure tt else close in
        quiet-Grown fresh n (unless >> pure []) w (
          then-IsQuiet fresh n unless (pure [])
            (unless-IsQuiet fresh n moved close close_parent-IsQuiet) (λ v. refl))

    act_on_review-Grown :
        (w : (EventBus S × S) × G)
        → let (r, v) = act_on_review a issue verdict seen on_moved moved w in
          Grown fresh issue.number (filed_by_review verdict) (fresh issue.number w) r v
    unfolding act_on_review filed_by_review
    act_on_review-Grown w =
        elim verdict.verdict
          as (λ t.
            let (r, v) =
              (elim t as (λ _. Exec ((EventBus S × S) × G) (List SubIssue)) [
                | met ↦
                    (if moved then pure tt else close_parent a issue verdict seen on_moved moved)
                    >> pure []
                | _ ↦ file_review a issue verdict seen >>= λ filed.
                    swap_labels a issue verdict seen on_moved moved >> pure filed
              ])
                w in
            Grown fresh issue.number (elim t [ met ↦ [] | _ ↦ verdict.sub_issues ])
              (fresh issue.number w) r v) [
                | next ↦ filing-Grown w
                | met ↦ closing-Grown w
                | gap ↦ filing-Grown w
              ]

    -- However an application of a review ends, of the sub-issues that the review did not see none
    -- is lost, none has come but under the title of a draft it files, and no two have one title
    -- unless they had before; a `met` files none; and where it returns, every draft that it files
    -- has one of them. The adapter keeps its laws, for those sub-issues too, as a new issue has a
    -- new number, and the callback leaves them alone.
    pub apply_parent_review-Grown :
        {F : Type 0} ⦃f : Float F⦄ (counts : ReviewCounts) (run : RunNote F)
        (w : (EventBus S × S) × G)
        → let (r, v) = apply_parent_review a issue verdict seen on_moved moved counts run w in
          Grown fresh issue.number (filed_by_review verdict) (fresh issue.number w) r v
    unfolding apply_parent_review
    apply_parent_review-Grown counts run w =
        let n = issue.number in
        let m = act_on_review a issue verdict seen on_moved moved w in
        continue-Grown fresh n (fresh n w) (filed_by_review verdict) m.0 m.1 _
          (act_on_review-Grown w)
          (λ filed.
            then-IsQuiet fresh n
              (a.comment n (parent_review_comment verdict filed counts run a.labels)) (pure filed)
              (grows.comments n (parent_review_comment verdict filed counts run a.labels))
              (λ v. refl))
