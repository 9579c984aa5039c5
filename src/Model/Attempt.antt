-- ===== src/Model/Attempt.antt =====
-- src/model.ts: lanes, execution snapshots, results, and Attempts. `undefined` and `null` of an optional
-- field are both `none`; a `number` that the ledger keeps as a count is a natural number.
use herdr_harness_lite.Model.Handoff.{AttemptContextEnvelope, Severity}
use herdr_harness_lite.Base.{ℕ, Eq, String, Option, List}
use herdr_harness_lite.Model.Snapshot.{Lane, ExecutionSnapshot, ReviewerCheckpointBinding}

pub data AttemptPhase : Type 0 where
  prepared pane_ready agent_ready running settled : AttemptPhase

unfoldable pub AttemptPhase-discrete : Discrete AttemptPhase
AttemptPhase-discrete = hlevel

instance abbrev pub attempt_phase_eq : Eq AttemptPhase
attempt_phase_eq = record { dec = AttemptPhase-discrete }

pub data AgentStatus : Type 0 where
  idle done blocked unknown : AgentStatus

unfoldable pub AgentStatus-discrete : Discrete AgentStatus
AgentStatus-discrete = hlevel

instance abbrev pub agent_status_eq : Eq AgentStatus
agent_status_eq = record { dec = AgentStatus-discrete }

pub record AgentHandle : Type 0 where
  pub agent_name : String
  pub pane_id : String
  pub tab_id : String
  pub workspace_id : String

pub data WorkerStatus : Type 0 where
  completed blocked failed : WorkerStatus

unfoldable pub WorkerStatus-discrete : Discrete WorkerStatus
WorkerStatus-discrete = hlevel

instance abbrev pub worker_status_eq : Eq WorkerStatus
worker_status_eq = record { dec = WorkerStatus-discrete }

pub record WorkerResult : Type 0 where
  pub version : ℕ
  pub job_id : String
  pub attempt_id : String
  pub status : WorkerStatus
  pub summary : String
  pub head_sha : Option String
  pub failed_commands : List String

pub record ReviewerFinding : Type 0 where
  pub severity : Severity
  pub summary : String
  pub evidence : String

pub data ReviewerStatus : Type 0 where
  pass changes blocked failed : ReviewerStatus

unfoldable pub ReviewerStatus-discrete : Discrete ReviewerStatus
ReviewerStatus-discrete = hlevel

instance abbrev pub reviewer_status_eq : Eq ReviewerStatus
reviewer_status_eq = record { dec = ReviewerStatus-discrete }

pub record ReviewerResult : Type 0 where
  pub version : ℕ
  pub job_id : String
  pub attempt_id : String
  pub status : ReviewerStatus
  pub summary : String
  pub reviewed_head_sha : Option String
  pub findings : List ReviewerFinding

-- The tag `lane` of the union is the constructor.
pub data AttemptResult : Type 0 where
  of_worker : WorkerResult → AttemptResult
  of_reviewer : ReviewerResult → AttemptResult

pub data ReviewerValidationStatus : Type 0 where
  passed failed_checks infrastructure_error : ReviewerValidationStatus

pub record ReviewerValidationReceiptBinding : Type 0 where
  pub path : String
  pub digest : String
  pub status : ReviewerValidationStatus

pub record Attempt : Type 0 where
  pub id : String
  pub lane : Lane
  pub phase : AttemptPhase
  pub round : ℕ
  pub base_sha : String
  pub expected_head_sha : Option String
  pub expected_remote_head_sha : Option String
  pub result_path : String
  pub reviewer_validation_argv : Option (List String)
  pub prompt_digest : String
  pub execution_snapshot : Option ExecutionSnapshot
  pub plan_digest : Option String
  pub context_envelope : Option AttemptContextEnvelope
  pub context_envelope_digest : Option String
  pub handle : Option AgentHandle
  pub result : Option AttemptResult
  pub reviewer_validation_receipt : Option ReviewerValidationReceiptBinding
  pub reviewer_checkpoint_inputs : Option (List ReviewerCheckpointBinding)
  pub reconciliation_attempts : Option ℕ
  pub started_at : String
  pub completed_at : Option String
