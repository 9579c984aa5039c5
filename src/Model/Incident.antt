-- ===== src/Model/Incident.antt =====
-- src/model.ts: incidents, the Analyst's advice, and the records of who authorized what.
use herdr_harness_lite.Base.{Bool, Eq, String, false, List, ℕ, Option, true}
use herdr_harness_lite.Model.Snapshot.{Lane}
use herdr_harness_lite.Model.Diagnostic.{SafeRuntimeDiagnostic}

pub data BlockClass : Type 0 where
  agent_decision agent_blocked review_uncertain reviewer_preflight_dirty : BlockClass
  validation_infrastructure infrastructure_exhausted integrity_violation stale_task : BlockClass
  ci_failure ci_rework_exhausted analyst_unavailable : BlockClass

unfoldable pub BlockClass-discrete : Discrete BlockClass
BlockClass-discrete = hlevel

instance abbrev pub block_class_eq : Eq BlockClass
block_class_eq = record { dec = BlockClass-discrete }

pub data RecoveryAction : Type 0 where
  retry_fresh_worker retry_fresh_reviewer hold : RecoveryAction

unfoldable pub RecoveryAction-discrete : Discrete RecoveryAction
RecoveryAction-discrete = hlevel

instance abbrev pub recovery_action_eq : Eq RecoveryAction
recovery_action_eq = record { dec = RecoveryAction-discrete }

abbrev pub is_retry_action : RecoveryAction → Bool
is_retry_action hold = false
is_retry_action _ = true

pub data AutomaticRecoveryRule : Type 0 where
  worker_pre_dispatch_infrastructure reviewer_same_head_infrastructure : AutomaticRecoveryRule
  provider_pre_side_effect_transient : AutomaticRecoveryRule

unfoldable pub AutomaticRecoveryRule-discrete : Discrete AutomaticRecoveryRule
AutomaticRecoveryRule-discrete = hlevel

instance abbrev pub automatic_recovery_rule_eq : Eq AutomaticRecoveryRule
automatic_recovery_rule_eq = record { dec = AutomaticRecoveryRule-discrete }

-- What a candidate of the Provider rule holds besides its fingerprint.
pub record ProviderScope : Type 0 where
  pub scope_fingerprint : String
  pub lane : Lane
  pub head_sha : String
  pub provider : String
  pub failure_code : String
  pub not_before : String

-- The union of candidates by its tag `rule`.
pub data AutomaticRecoveryCandidate : Type 0 where
  pre_dispatch : String → AutomaticRecoveryCandidate
  same_head : String → AutomaticRecoveryCandidate
  provider_transient : String → ProviderScope → AutomaticRecoveryCandidate

abbrev pub rule_of : AutomaticRecoveryCandidate → AutomaticRecoveryRule
rule_of (pre_dispatch _) = worker_pre_dispatch_infrastructure
rule_of (same_head _) = reviewer_same_head_infrastructure
rule_of (provider_transient _ _) = provider_pre_side_effect_transient

abbrev pub fingerprint_of : AutomaticRecoveryCandidate → String
fingerprint_of (pre_dispatch f) = f
fingerprint_of (same_head f) = f
fingerprint_of (provider_transient f _) = f

-- `Lane | "controller"`
pub data IncidentLane : Type 0 where
  of_lane : Lane → IncidentLane
  controller : IncidentLane

unfoldable pub IncidentLane-discrete : Discrete IncidentLane
IncidentLane-discrete = hlevel

instance abbrev pub incident_lane_eq : Eq IncidentLane
incident_lane_eq = record { dec = IncidentLane-discrete }

-- The field `class` is `block_class`.
pub record Incident : Type 0 where
  pub id : String
  pub block_class : BlockClass
  pub lane : IncidentLane
  pub attempt_id : Option String
  pub summary : String
  pub evidence_digest : String
  pub allowed_actions : List RecoveryAction
  pub automatic_recovery : Option AutomaticRecoveryCandidate
  pub runtime_diagnostic : Option SafeRuntimeDiagnostic
  pub created_at : String

pub data Confidence : Type 0 where
  high medium low : Confidence

pub data HypothesisStatus : Type 0 where
  supported rejected unresolved : HypothesisStatus

pub record AnalystHypothesis : Type 0 where
  pub claim : String
  pub status : HypothesisStatus
  pub confidence : Confidence
  pub evidence_refs : List String

pub record AnalystDiagnosis : Type 0 where
  pub primary_cause : String
  pub confidence : Confidence
  pub contributing_factors : List String
  pub preservation_constraints : List String
  pub hypotheses : List AnalystHypothesis

pub record AnalystAdvice : Type 0 where
  pub id : String
  pub incident_id : String
  pub evidence_digest : String
  pub action : RecoveryAction
  pub summary : String
  pub resolution_brief : String
  pub evidence_refs : List String
  pub unknowns : List String
  pub diagnosis : Option AnalystDiagnosis
  pub created_at : String

pub data ApprovalBasis : Type 0 where
  analyst_advice human_decision policy_rule : ApprovalBasis

unfoldable pub ApprovalBasis-discrete : Discrete ApprovalBasis
ApprovalBasis-discrete = hlevel

instance abbrev pub approval_basis_eq : Eq ApprovalBasis
approval_basis_eq = record { dec = ApprovalBasis-discrete }

pub record Approval : Type 0 where
  pub id : String
  pub job_revision : ℕ
  pub incident_id : String
  pub analysis_id : Option String
  pub action : RecoveryAction
  pub basis : Option ApprovalBasis
  pub policy_rule_name : Option AutomaticRecoveryRule
  pub fingerprint : Option String
  pub actor : String
  pub reason : String
  pub created_at : String
  pub consumed_at : Option String

-- An `Approval` with the fields that the type adds; the ones that are mandatory there (`policyRule`,
-- `fingerprint`) are the approval's.
pub record AutomaticRecovery : Type 0 where
  pub approval : Approval
  pub attempt_id : String
  pub scope_fingerprint : Option String
  pub lane : Option Lane
  pub head_sha : Option String
  pub provider : Option String
  pub failure_code : Option String
  pub not_before : Option String

pub record Reassessment : Type 0 where
  pub id : String
  pub job_revision : ℕ
  pub incident_id : String
  pub analysis_id : String
  pub replacement_incident_id : String
  pub actor : String
  pub reason : String
  pub created_at : String

pub record Cancellation : Type 0 where
  pub id : String
  pub job_revision : ℕ
  pub incident_id : String
  pub analysis_id : String
  pub actor : String
  pub reason : String
  pub created_at : String
