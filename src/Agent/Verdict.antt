-- ===== src/Agent/Verdict.antt =====
-- agent/verdict.py: the shape of a triage verdict and of a parent review's.
pub mod Parse
use issuebot.Prelude.{String, List}

pub data DraftKind : Type 0 where
  issuebot_step operator_step : DraftKind

pub record SubIssueDraft : Type 0 where
  pub title : String
  pub body : String
  pub kind : DraftKind

pub data TriageAnswer : Type 0 where
  fits split : TriageAnswer

pub record TriageVerdict : Type 0 where
  pub verdict : TriageAnswer
  pub summary : String
  pub fits_caps : String
  pub lands_fast : String
  pub needs_human : String
  pub ignored_requests : String
  pub sub_issues : List SubIssueDraft

pub data ReviewAnswer : Type 0 where
  next met gap : ReviewAnswer

pub record ParentReviewVerdict : Type 0 where
  pub verdict : ReviewAnswer
  pub summary : String
  pub evidence : String
  pub ignored_requests : String
  pub sub_issues : List SubIssueDraft
