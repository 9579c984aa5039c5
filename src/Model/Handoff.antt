-- ===== src/Model/Handoff.antt =====
-- src/model.ts: the task's snapshot, the typed handoff to the next Attempt, and the envelope in which an
-- Attempt receives it.
use herdr_harness_lite.Model.Snapshot.{Lane, ReviewerCheckpointBinding}
use herdr_harness_lite.Base.{Eq, Option, String, ℕ, List}
use herdr_harness_lite.Model.Issue.{IssueReference}

-- `blockedBy`, which old ledgers miss, is an `Option`.
pub record TaskSnapshot : Type 0 where
  pub repo : String
  pub issue_number : ℕ
  pub map_number : Option ℕ
  pub title : String
  pub objective : String
  pub labels : List String
  pub blocked_by : Option (List IssueReference)
  pub issue_updated_at : String
  pub digest : String

pub data Severity : Type 0 where
  critical major minor : Severity

unfoldable pub Severity-discrete : Discrete Severity
Severity-discrete = hlevel

instance abbrev pub severity_eq : Eq Severity
severity_eq = record { dec = Severity-discrete }

pub record HandoffObligation : Type 0 where
  pub severity : Option Severity
  pub summary : String
  pub evidence : Option String

pub data HandoffKind : Type 0 where
  review_changes approved_recovery ci_rework : HandoffKind

pub record HandoffSource : Type 0 where
  pub job_revision : ℕ
  pub task_digest : String
  pub attempt_id : Option String
  pub result_digest : Option String
  pub incident_id : Option String
  pub evidence_digest : Option String
  pub analysis_id : Option String
  pub approval_id : Option String
  pub head_sha : Option String

pub record HandoffTarget : Type 0 where
  pub lane : Lane
  pub base_sha : String
  pub expected_head_sha : Option String
  pub expected_remote_head_sha : Option String

-- All but `id`, which is made from a digest of the rest.
pub record HandoffBody : Type 0 where
  pub version : ℕ
  pub kind : HandoffKind
  pub source : HandoffSource
  pub target : HandoffTarget
  pub summary : String
  pub obligations : List HandoffObligation
  pub evidence_refs : List String
  pub unknowns : List String
  pub created_at : String

pub record TypedHandoff : Type 0 where
  pub id : String
  pub body : HandoffBody

-- The parts of the envelope that the ledger's code reads: the handoff that the Attempt was given, and
-- its checkpoint inputs.
pub record AttemptContextEnvelope : Type 0 where
  pub handoff : Option TypedHandoff
  pub reviewer_checkpoint_inputs : Option (List ReviewerCheckpointBinding)
