-- ===== src/Orchestrator/Actions/HandBack.antt =====
-- orchestrator/actions.py: the escapes without a workpad, which write the label first and then a
-- comment of its own.
use issuebot.Prelude.{
  String, Option, none, some, [], ◌∷◌, Bool, true, not, str_eq, in_strs, if◌then◌else◌,
}
use issuebot.Prelude.Text.{◌<>◌, show, lower}
use issuebot.GitHub.Models.{Instant, Issue}
use issuebot.GitHub.Adapter.{Result, ok, err, Exec, pure, attempt, GitHubAdapter, ◌>>=◌, ◌>>◌}
use issuebot.Events.{Event, state_changed, by_issuebot}
use issuebot.Orchestrator.Runtime.{state_label_name}
use issuebot.Orchestrator.Stamps.{utc_stamp}
use issuebot.Orchestrator.Filing.Apply.{announce}
use issuebot.Orchestrator.Actions.{World, EscapeOutcome, applied, failed, blocked_by}

-- What the callers of `_hand_back` give it.
pub record HandBack : Type 0 where
  pub title : String
  pub reason : String
  pub way_back : String
  pub from_label : Option String
  pub to_label : Option String
  pub is_block : Bool

unfoldable pub hand_back_note : HandBack → Instant → String
hand_back_note h now =
    "### Issuebot "
    <> h.title
    <> " ("
    <> utc_stamp now
    <> ")\n\n"
    <> h.reason
    <> "\n\n"
    <> h.way_back

-- `to_label is None or from_label != to_label`
unfoldable pub moves_label : Option String → Option String → Bool
moves_label from_label none = true
moves_label none (some to) = true
moves_label (some from) (some to) = not (str_eq from to)

unfoldable pub handed_back : Issue → HandBack → Event
handed_back issue h = state_changed (record {
  issue_number = issue.number;
  issue_identifier = issue.identifier;
  from_label = h.from_label;
  to_label = h.to_label;
  actor = by_issuebot;
  pr_url = none;
  note = none;
})

module _ {S G : Type 0} (a : GitHubAdapter (World S G)) (issue : Issue) (now : Instant) where
  unfoldable pub hand_back_end : HandBack → Result (Unit {0}) → Exec (World S G) EscapeOutcome
  unfolding announce handed_back moves_label blocked_by hand_back_note attempt
  hand_back_end h (err e) = pure failed
  hand_back_end h (ok _) = do
    attempt (a.comment issue.number (hand_back_note h now))
    if moves_label h.from_label h.to_label then announce (handed_back issue h) else pure tt
    if h.is_block then announce (blocked_by issue h.reason) else pure tt
    pure applied

  -- `_hand_back`, with `write_label` as its first argument.
  unfoldable pub hand_back : Exec (World S G) (Unit {0}) → HandBack → Exec (World S G) EscapeOutcome
  unfolding hand_back_end attempt
  hand_back write_label h = attempt write_label >>= hand_back_end h

  module _ (title reason way_back : String) where
    unfoldable pub triage_escape : Exec (World S G) EscapeOutcome
    unfolding hand_back
    triage_escape = hand_back (a.edit_labels issue.number [] (a.labels.triage_todo ∷ [])) (record {
      title = title;
      reason = reason;
      way_back = way_back;
      from_label = some a.labels.triage_todo;
      to_label = none;
      is_block = true;
    })

    -- `is_block` is the parameter `blocked`.
    unfoldable pub parent_hand_over : Bool → Exec (World S G) EscapeOutcome
    unfolding hand_back lower in_strs
    parent_hand_over is_block =
        hand_back
          (a.edit_labels issue.number (a.labels.triage_complete ∷ []) (a.labels.triage_todo ∷ []))
          (record {
            title = title;
            reason = reason;
            way_back = way_back;
            from_label = some (
                if in_strs (lower a.labels.triage_todo) issue.labels
                then a.labels.triage_todo
                else a.labels.triage_complete);
            to_label = some a.labels.triage_complete;
            is_block = is_block;
          })

  took_off : Option String → String
  took_off none = "issuebot has removed its state label."
  took_off (some removed) = "issuebot has removed `" <> removed <> "`."

  unfoldable pub operator_step_escape : Exec (World S G) EscapeOutcome
  unfolding hand_back took_off state_label_name
  operator_step_escape = hand_back (a.clear_state issue.number) (record {
    title = "operator step";
    reason =
        "#"
        <> show issue.number
        <> " is an operator step (`"
        <> a.labels.operator_step
        <> "`): issuebot does not run it";
    way_back =
        "Do it yourself, as the issue says, then close it. " <> took_off (state_label_name issue);
    from_label = state_label_name issue;
    to_label = none;
    is_block = true;
  })
