-- ===== src/Model/Encode.antt =====
-- The JSON values that src/policy.ts and src/handoff.ts hand to `digest`: each object with the fields
-- that it has at that point, an optional one only where it is present.
use herdr_harness_lite.Model.Incident.{
  RecoveryAction, IncidentLane, BlockClass, AutomaticRecoveryCandidate, AutomaticRecoveryRule,
  pre_dispatch, worker_pre_dispatch_infrastructure, retry_fresh_worker, of_lane, agent_decision,
  retry_fresh_reviewer, agent_blocked, reviewer_same_head_infrastructure, controller,
  provider_pre_side_effect_transient, hold, review_uncertain, reviewer_preflight_dirty,
  validation_infrastructure, infrastructure_exhausted, integrity_violation, stale_task, ci_failure,
  ci_rework_exhausted, analyst_unavailable, same_head, provider_transient,
}
use herdr_harness_lite.Model.Attempt.{
  AttemptResult, ReviewerStatus, WorkerStatus, of_worker, ReviewerFinding, of_reviewer,
}
use herdr_harness_lite.Model.Handoff.{
  HandoffBody, Severity, HandoffKind, HandoffObligation, critical, review_changes, major,
  approved_recovery, minor, ci_rework,
}
use herdr_harness_lite.Model.Diagnostic.{SafeRuntimeDiagnostic, ChildExit}
use herdr_harness_lite.Model.Snapshot.{Lane, worker, reviewer}
use herdr_harness_lite.Base.{Option, List, String, ℕ, some, none, ◌∷◌, []}
use herdr_harness_lite.Model.Digest.{
  Value, Fields, Items, field, null, obj, no_items, num, str, end, item, arr, bool,
}

unfoldable pub nullable : Option String → Value
nullable none = null
nullable (some s) = str s

texts : List String → Items
texts [] = no_items
texts (t ∷ ts) = item (str t) (texts ts)

-- A field that is present only if its value is.
optional : {A : Type 0} → String → (A → Value) → Option A → Fields → Fields
optional key enc none fs = fs
optional key enc (some a) fs = field key (enc a) fs

abbrev pub lane_text : Lane → String
lane_text worker = "worker"
lane_text reviewer = "reviewer"

abbrev pub incident_lane_text : IncidentLane → String
incident_lane_text (of_lane l) = lane_text l
incident_lane_text controller = "controller"

abbrev pub class_text : BlockClass → String
class_text agent_decision = "agent_decision"
class_text agent_blocked = "agent_blocked"
class_text review_uncertain = "review_uncertain"
class_text reviewer_preflight_dirty = "reviewer_preflight_dirty"
class_text validation_infrastructure = "validation_infrastructure"
class_text infrastructure_exhausted = "infrastructure_exhausted"
class_text integrity_violation = "integrity_violation"
class_text stale_task = "stale_task"
class_text ci_failure = "ci_failure"
class_text ci_rework_exhausted = "ci_rework_exhausted"
class_text analyst_unavailable = "analyst_unavailable"

abbrev pub rule_text : AutomaticRecoveryRule → String
rule_text worker_pre_dispatch_infrastructure = "worker_pre_dispatch_infrastructure"
rule_text reviewer_same_head_infrastructure = "reviewer_same_head_infrastructure"
rule_text provider_pre_side_effect_transient = "provider_pre_side_effect_transient"

abbrev pub action_text : RecoveryAction → String
action_text retry_fresh_worker = "retry_fresh_worker"
action_text retry_fresh_reviewer = "retry_fresh_reviewer"
action_text hold = "hold"

candidate_value : AutomaticRecoveryCandidate → Value
candidate_value (pre_dispatch f) = obj (
    field "rule" (str (rule_text worker_pre_dispatch_infrastructure))
      (field "fingerprint" (str f) end))
candidate_value (same_head f) = obj (
    field "rule" (str (rule_text reviewer_same_head_infrastructure))
      (field "fingerprint" (str f) end))
candidate_value (provider_transient f p) = obj (
    field "rule" (str (rule_text provider_pre_side_effect_transient)) (
      field "provider" (str p.provider) (
        field "failureCode" (str p.failure_code) (
          field "lane" (str (lane_text p.lane)) (
            field "headSha" (str p.head_sha) (
              field "fingerprint" (str f) (
                field "scopeFingerprint" (str p.scope_fingerprint)
                  (field "notBefore" (str p.not_before) end))))))))

exit_value : Option ChildExit → Value
exit_value none = null
exit_value (some x) = obj (
    field "code" (elim x.code [ none ↦ null | some n ↦ num n ])
      (field "signal" (nullable x.signal) end))

diagnostic_fields : Option String → SafeRuntimeDiagnostic → Value
diagnostic_fields fingerprint d = obj (
    field "failureDomain" (str d.failure_domain) (
      field "failureCode" (str d.failure_code) (
        field "retryable" (bool d.retryable) (
          optional "domain" str d.domain (
            optional "code" str d.code (
              optional "stage" str d.stage (
                optional "diagnosticFingerprint" str fingerprint (
                  optional "httpStatus" num d.http_status (
                    optional "providerApi" str d.provider_api (
                      optional "phase" str d.phase (
                        optional "turnCount" num d.turn_count (
                          optional "assistantMessageCount" num d.assistant_message_count (
                            optional "toolExecutionCount" num d.tool_execution_count (
                              optional "toolErrorCount" num d.tool_error_count (
                                optional "transcriptSizeBucket" str d.transcript_size_bucket (
                                  optional "failureStage" str d.failure_stage (
                                    optional "childExit" exit_value d.child_exit (
                                      optional "assistantContentObserved" bool
                                        d.assistant_content_observed
                                        (optional "toolCallObserved" bool d.tool_call_observed (
                                          optional "toolExecutionStarted" bool
                                            d.tool_execution_started
                                            (optional "durableResultPresent" bool
                                              d.durable_result_present
                                              (optional "worktreeChanged" bool d.worktree_changed (
                                                optional "commitCreated" bool d.commit_created
                                                  end)))))))))))))))))))))))

unfoldable pub diagnostic_value : SafeRuntimeDiagnostic → Value
unfolding diagnostic_fields nullable optional exit_value
diagnostic_value d = diagnostic_fields (some d.diagnostic_fingerprint) d

-- `withoutFingerprint`
unfoldable pub unprinted_value : SafeRuntimeDiagnostic → Value
unfolding diagnostic_fields nullable optional exit_value
unprinted_value d = diagnostic_fields none d

-- What `makeIncident` digests.
pub record IncidentCore : Type 0 where
  pub job_id : String
  pub job_revision : ℕ
  pub lane : IncidentLane
  pub attempt_id : Option String
  pub block_class : BlockClass
  pub summary : String
  pub automatic_recovery : Option AutomaticRecoveryCandidate
  pub runtime_diagnostic : Option SafeRuntimeDiagnostic
  pub created_at : String

unfoldable pub incident_core_value : IncidentCore → Value
unfolding nullable optional candidate_value exit_value diagnostic_value
incident_core_value c = obj (
    field "jobId" (str c.job_id) (
      field "jobRevision" (num c.job_revision) (
        field "lane" (str (incident_lane_text c.lane)) (
          field "attemptId" (nullable c.attempt_id) (
            field "blockClass" (str (class_text c.block_class)) (
              field "summary" (str c.summary) (
                optional "automaticRecovery" candidate_value c.automatic_recovery (
                  optional "runtimeDiagnostic" diagnostic_value c.runtime_diagnostic
                    (field "createdAt" (str c.created_at) end)))))))))

worker_status_text : WorkerStatus → String
worker_status_text WorkerStatus.completed = "completed"
worker_status_text WorkerStatus.blocked = "blocked"
worker_status_text WorkerStatus.failed = "failed"

reviewer_status_text : ReviewerStatus → String
reviewer_status_text ReviewerStatus.pass = "pass"
reviewer_status_text ReviewerStatus.changes = "changes"
reviewer_status_text ReviewerStatus.blocked = "blocked"
reviewer_status_text ReviewerStatus.failed = "failed"

severity_text : Severity → String
severity_text critical = "critical"
severity_text major = "major"
severity_text minor = "minor"

finding_values : List ReviewerFinding → Items
finding_values [] = no_items
finding_values (f ∷ fs) =
    item
      (obj (
        field "severity" (str (severity_text f.severity))
          (field "summary" (str f.summary) (field "evidence" (str f.evidence) end))))
      (finding_values fs)

unfoldable pub result_value : AttemptResult → Value
unfolding nullable texts worker_status_text reviewer_status_text severity_text finding_values
result_value (of_worker r) = obj (
    field "version" (num r.version) (
      field "jobId" (str r.job_id) (
        field "attemptId" (str r.attempt_id) (
          field "lane" (str "worker") (
            field "status" (str (worker_status_text r.status)) (
              field "summary" (str r.summary) (
                field "headSha" (nullable r.head_sha)
                  (field "failedCommands" (arr (texts r.failed_commands)) end))))))))
result_value (of_reviewer r) = obj (
    field "version" (num r.version) (
      field "jobId" (str r.job_id) (
        field "attemptId" (str r.attempt_id) (
          field "lane" (str "reviewer") (
            field "status" (str (reviewer_status_text r.status)) (
              field "summary" (str r.summary) (
                field "reviewedHeadSha" (nullable r.reviewed_head_sha)
                  (field "findings" (arr (finding_values r.findings)) end))))))))

handoff_kind_text : HandoffKind → String
handoff_kind_text review_changes = "review_changes"
handoff_kind_text approved_recovery = "approved_recovery"
handoff_kind_text ci_rework = "ci_rework"

obligation_values : List HandoffObligation → Items
obligation_values [] = no_items
obligation_values (o ∷ os) =
    item
      (obj (
        field "severity" (elim o.severity [ none ↦ null | some s ↦ str (severity_text s) ])
          (field "summary" (str o.summary) (field "evidence" (nullable o.evidence) end))))
      (obligation_values os)

unfoldable pub handoff_value : HandoffBody → Value
unfolding nullable texts severity_text handoff_kind_text obligation_values
handoff_value b =
    let source = b.source in
    let target = b.target in
    obj (
      field "version" (num b.version) (
        field "kind" (str (handoff_kind_text b.kind)) (
          field "source"
            (obj (
              field "jobRevision" (num source.job_revision) (
                field "taskDigest" (str source.task_digest) (
                  field "attemptId" (nullable source.attempt_id) (
                    field "resultDigest" (nullable source.result_digest) (
                      field "incidentId" (nullable source.incident_id) (
                        field "evidenceDigest" (nullable source.evidence_digest) (
                          field "analysisId" (nullable source.analysis_id) (
                            field "approvalId" (nullable source.approval_id)
                              (field "headSha" (nullable source.head_sha) end))))))))))
            (field "target"
              (obj (
                field "lane" (str (lane_text target.lane)) (
                  field "baseSha" (str target.base_sha) (
                    field "expectedHeadSha" (nullable target.expected_head_sha) (
                      field "expectedRemoteHeadSha" (nullable target.expected_remote_head_sha)
                        end)))))
              (field "summary" (str b.summary) (
                field "obligations" (arr (obligation_values b.obligations)) (
                  field "evidenceRefs" (arr (texts b.evidence_refs)) (
                    field "unknowns" (arr (texts b.unknowns))
                      (field "createdAt" (str b.created_at) end)))))))))
