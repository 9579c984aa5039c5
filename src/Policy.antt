-- ===== src/Policy.antt =====
-- src/policy.ts: what each class of incident allows, incidents, and the check of a result's identity.
pub mod Operator
pub mod Reassess
pub mod Projection
pub mod Automatic
pub mod Offers
pub mod Authorization
pub mod Results
use herdr_harness_lite.Model.Incident.{
  BlockClass, IncidentLane, Incident, AutomaticRecoveryCandidate, RecoveryAction,
  retry_fresh_worker, hold, of_lane, retry_fresh_reviewer, agent_decision, agent_blocked,
  review_uncertain, ci_failure, reviewer_preflight_dirty, validation_infrastructure,
  infrastructure_exhausted, integrity_violation, stale_task, ci_rework_exhausted,
  analyst_unavailable,
}
use herdr_harness_lite.Base.{
  Option, String, ℕ, Bool, some, List, false, true, ◌==◌, none, if◌then◌else◌, string_eq, ◌&&◌, Eq,
  ◌/=◌, ◌||◌, ◌∷◌, [], nat_eq,
}
use herdr_harness_lite.Model.Platform.{Platform}
use herdr_harness_lite.Model.Attempt.{
  AttemptResult, Attempt, of_worker, of_reviewer, ReviewerStatus, WorkerStatus, reviewer_status_eq,
  worker_status_eq,
}
use herdr_harness_lite.Model.Snapshot.{Lane, worker, reviewer, lane_eq}
use herdr_harness_lite.Model.Encode.{IncidentCore, incident_core_value, lane_text}
use herdr_harness_lite.Model.Diagnostic.{SafeRuntimeDiagnostic}
use herdr_harness_lite.Model.Digest.{digest}
use herdr_harness_lite.Base.Text.{is_blank, ◌<>◌}

unfoldable pub allowed_actions_for : BlockClass → IncidentLane → List RecoveryAction
allowed_actions_for agent_decision lane = retry_fresh_worker ∷ hold ∷ []
allowed_actions_for agent_blocked lane = retry_fresh_worker ∷ hold ∷ []
allowed_actions_for review_uncertain lane = retry_fresh_worker ∷ hold ∷ []
allowed_actions_for ci_failure lane = retry_fresh_worker ∷ hold ∷ []
allowed_actions_for reviewer_preflight_dirty (of_lane reviewer) = retry_fresh_reviewer ∷ hold ∷ []
allowed_actions_for reviewer_preflight_dirty _ = hold ∷ []
allowed_actions_for validation_infrastructure (of_lane reviewer) = retry_fresh_reviewer ∷ hold ∷ []
allowed_actions_for validation_infrastructure _ = hold ∷ []
allowed_actions_for infrastructure_exhausted (of_lane reviewer) = retry_fresh_reviewer ∷ hold ∷ []
allowed_actions_for infrastructure_exhausted _ = retry_fresh_worker ∷ hold ∷ []
allowed_actions_for integrity_violation lane = hold ∷ []
allowed_actions_for stale_task lane = hold ∷ []
allowed_actions_for ci_rework_exhausted lane = hold ∷ []
allowed_actions_for analyst_unavailable lane = hold ∷ []

-- The input of `makeIncident`, without the clock and the ids: their answers are arguments.
pub record IncidentInput : Type 0 where
  pub job_id : String
  pub job_revision : ℕ
  pub lane : IncidentLane
  pub attempt_id : Option String
  pub block_class : BlockClass
  pub summary : String
  pub automatic_recovery : Option AutomaticRecoveryCandidate
  pub runtime_diagnostic : Option SafeRuntimeDiagnostic

unfoldable pub make_incident : Platform → IncidentInput → String → String → Incident
make_incident platform input created_at id =
    let core : IncidentCore = record {
      job_id = input.job_id;
      job_revision = input.job_revision;
      lane = input.lane;
      attempt_id = input.attempt_id;
      block_class = input.block_class;
      summary = input.summary;
      automatic_recovery = input.automatic_recovery;
      runtime_diagnostic = input.runtime_diagnostic;
      created_at = created_at;
    } in
    record {
      id = id;
      block_class = input.block_class;
      lane = input.lane;
      attempt_id = input.attempt_id;
      summary = input.summary;
      evidence_digest = digest platform (incident_core_value core);
      allowed_actions = allowed_actions_for input.block_class input.lane;
      automatic_recovery = input.automatic_recovery;
      runtime_diagnostic = input.runtime_diagnostic;
      created_at = created_at;
    }

pub data Validation : Type 0 where
  valid : AttemptResult → Validation
  invalid : String → Validation

-- The fields that both kinds of result have.
abbrev pub result_version : AttemptResult → ℕ
result_version (of_worker r) = r.version
result_version (of_reviewer r) = r.version

abbrev pub result_job_id : AttemptResult → String
result_job_id (of_worker r) = r.job_id
result_job_id (of_reviewer r) = r.job_id

abbrev pub result_attempt_id : AttemptResult → String
result_attempt_id (of_worker r) = r.attempt_id
result_attempt_id (of_reviewer r) = r.attempt_id

abbrev pub result_lane : AttemptResult → Lane
result_lane (of_worker r) = worker
result_lane (of_reviewer r) = reviewer

-- `!text` of a text that may be missing.
abbrev pub is_falsy : Option String → Bool
is_falsy none = true
is_falsy (some s) = s == ""

-- `completed worker result is missing headSha`
abbrev lacks_head : AttemptResult → Bool
lacks_head (of_worker r) = r.status == WorkerStatus.completed && is_falsy r.head_sha
lacks_head (of_reviewer r) = false

-- `reviewer result is missing reviewedHeadSha`
abbrev lacks_reviewed_head : AttemptResult → Bool
lacks_reviewed_head (of_worker r) = false
lacks_reviewed_head (of_reviewer r) =
    (r.status == ReviewerStatus.pass || r.status == ReviewerStatus.changes)
    && is_falsy r.reviewed_head_sha

unfoldable pub validate_attempt_result : String → Attempt → Option AttemptResult → Validation
validate_attempt_result job_id attempt none = invalid "agent settled without a durable result"
validate_attempt_result job_id attempt (some r) =
    if result_version r /= 1
    then invalid "unsupported attempt result version"
    else if is_blank (result_job_id r) || is_blank (result_attempt_id r)
    then invalid "attempt result identity is empty"
    else if result_job_id r /= job_id
    then invalid ("job id mismatch: expected " <> job_id <> ", got " <> result_job_id r)
    else if result_attempt_id r /= attempt.id
    then invalid ("attempt id mismatch: expected " <> attempt.id <> ", got " <> result_attempt_id r)
    else if result_lane r /= attempt.lane
    then invalid (
        "attempt lane mismatch: expected "
        <> lane_text attempt.lane
        <> ", got "
        <> lane_text (result_lane r))
    else if lacks_head r
    then invalid "completed worker result is missing headSha"
    else if lacks_reviewed_head r
    then invalid "reviewer result is missing reviewedHeadSha"
    else valid r
