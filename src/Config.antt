-- ===== src/Config.antt =====
-- config/settings.py: the label names that the rest of the program compares.
use issuebot.Prelude.{String, List, [], ◌∷◌, ◌++◌, Bool, true, not, ◌&&◌, map, in_strs}
use issuebot.Prelude.Text.{lower}

-- `GitHubLabels`: the five state labels and the four markers.
pub record GitHubLabels : Type 0 where
  pub todo : String
  pub in_progress : String
  pub review : String
  pub rework : String
  pub complete : String
  pub no_fault : String
  pub triage_todo : String
  pub triage_complete : String
  pub operator_step : String

abbrev pub default_labels : GitHubLabels
default_labels = record {
  todo = "issuebot/todo";
  in_progress = "issuebot/in-progress";
  review = "issuebot/review";
  rework = "issuebot/rework";
  complete = "issuebot/complete";
  no_fault = "issuebot/no-fault";
  triage_todo = "issuebot/triage-todo";
  triage_complete = "issuebot/triage-complete";
  operator_step = "issuebot/operator-step";
}

unfoldable pub as_tuple : GitHubLabels → List String
as_tuple l = l.todo ∷ l.in_progress ∷ l.review ∷ l.rework ∷ l.complete ∷ []

unfoldable pub markers : GitHubLabels → List String
markers l = l.no_fault ∷ l.triage_todo ∷ l.triage_complete ∷ l.operator_step ∷ []

unfoldable pub claim_clears : GitHubLabels → List String
claim_clears l = l.no_fault ∷ l.triage_todo ∷ []

unfoldable pub warn_only : GitHubLabels → List String
warn_only l = l.triage_todo ∷ l.triage_complete ∷ l.operator_step ∷ []

-- No text of the list is there twice: `len(set(values)) == len(values)`.
unfoldable pub distinct : List String → Bool
unfolding in_strs
distinct [] = true
distinct (s ∷ ss) = not (in_strs s ss) && distinct ss

-- The model validator `_labels_are_distinct`.
unfoldable pub labels_are_distinct : GitHubLabels → Bool
unfolding as_tuple markers distinct lower
labels_are_distinct l = distinct (map lower (as_tuple l ++ markers l))
