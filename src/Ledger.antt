-- ===== src/Ledger.antt =====
-- src/model.ts: `assertJobInvariant`, the check that every save of the ledger passes. An assertion is the
-- list of its tests in the order of the source, each with the message that is thrown when it holds; that a
-- number is a natural one is in the types.
pub mod Parts
pub mod Handoffs
pub mod Recoveries
pub mod Attempts
pub use Parts.{first_failure}
use herdr_harness_lite.Base.{
  List, Bool, Option, String, ◌==◌, ◌++◌, ltb, is_empty, ◌||◌, ◌∷◌, not, ◌otherwise◌, ◌&&◌, is_none,
  Eq, [], some, is_some, ◌/=◌, string_eq, some_of, option_eq,
}
use herdr_harness_lite.Model.Job.{
  JobState, Job, worker_running, max_ci_reworks, reviewer_running, blocked, recovery_approved,
  job_state_eq, max_attempt_reconciliations, publish_ready, awaiting_merge,
}
use herdr_harness_lite.Model.Platform.{Platform}
use herdr_harness_lite.Model.Incident.{
  RecoveryAction, recovery_action_eq, is_retry_action, ci_failure, ci_rework_exhausted,
  human_decision, block_class_eq, BlockClass, policy_rule, approval_basis_eq, ApprovalBasis,
}
use herdr_harness_lite.Model.Snapshot.{Lane, worker, reviewer}
use herdr_harness_lite.Ledger.Parts.{
  has_duplicate, is_ci_evidence, is_analyst_diagnosis, is_cancellation, is_reassessment,
}
use herdr_harness_lite.Base.Text.{is_blank, is_hex}
use herdr_harness_lite.Policy.Operator.{holds_of}
use herdr_harness_lite.Ledger.Attempts.{checkpoint_tests, is_receipt}
use herdr_harness_lite.Ledger.Recoveries.{
  is_candidate, has_analysis_binding, is_auditable, is_recovery_history, is_recorded,
}
use herdr_harness_lite.Ledger.Handoffs.{
  is_typed_handoff, envelope_handoff, is_bound_to_next, targets_attempt,
}
use herdr_harness_lite.Policy.Automatic.{recoveries_of}
use herdr_harness_lite.Policy.{is_falsy}

-- `new Set(xs).size !== xs.length`
abbrev has_duplicate_action : List RecoveryAction → Bool
has_duplicate_action xs = has_duplicate recovery_action_eq xs

claim_tests : Platform → Job → List (Bool × String)
claim_tests platform job =
    (is_blank job.id, "job id is empty")
    ∷ (job.state == blocked && is_none job.incident, "blocked job requires an incident")
    ∷ (
      job.state == recovery_approved && is_none job.approval,
      "recovery_approved job requires an approval",
    )
    ∷ (
      job.state == JobState.cancelled && is_none job.cancellation,
      "cancelled job requires a cancellation record",
    )
    ∷ (
      holds_of (λ b. not (is_blank b)) job.pending_brief,
      "legacy pendingBrief requires a quiescent migration",
    )
    ∷ (
      holds_of (λ h. not (is_typed_handoff platform h)) job.pending_handoff,
      "job has an invalid typed handoff",
    )
    ∷ (
      holds_of (λ h. not (is_bound_to_next job h)) job.pending_handoff,
      "pending handoff is not bound to the next ready Attempt",
    )
    ∷ (
      holds_of (λ c. not (is_cancellation platform c)) job.cancellation,
      "job has an invalid cancellation record",
    )
    ∷ []

ci_tests : Platform → Job → List (Bool × String)
ci_tests platform job =
    (ltb max_ci_reworks (job.ci_rework_count otherwise 0), "job has an invalid CI rework count")
    ∷ (
      holds_of (λ f. not (is_ci_evidence platform job f)) job.ci_failure,
      "job has invalid CI failure evidence",
    )
    ∷ (
      holds_of (λ i. i.block_class == ci_failure || i.block_class == ci_rework_exhausted)
            job.incident
          && is_none job.ci_failure,
      "CI incident requires failure evidence",
    )
    ∷ []

incident_tests : Platform → Job → List (Bool × String)
incident_tests platform job =
    (
      holds_of (λ i. is_empty i.allowed_actions || has_duplicate_action i.allowed_actions)
          job.incident,
      "incident has an invalid recovery action",
    )
    ∷ (
      holds_of (λ i. holds_of (λ c. not (is_candidate platform job i c)) i.automatic_recovery)
          job.incident,
      "incident has an invalid automatic recovery candidate",
    )
    ∷ (
      holds_of (λ i. holds_of (λ d. not (platform.is_safe_diagnostic d)) i.runtime_diagnostic)
          job.incident,
      "incident has an invalid runtime diagnostic",
    )
    ∷ (
      holds_of (λ a. holds_of (λ d. not (is_analyst_diagnosis d)) a.diagnosis) job.analysis,
      "analysis has an invalid structured diagnosis",
    )
    ∷ []

approval_tests : Platform → Job → List (Bool × String)
approval_tests platform job =
    (
      holds_of (λ a. not (is_retry_action a.action)) job.approval,
      "approval has an invalid recovery action",
    )
    ∷ (
      holds_of (λ a. not (has_analysis_binding a)) job.approval,
      "approval has an invalid analysis binding",
    )
    ∷ (
      holds_of (λ a. a.basis == some human_decision && not (is_auditable platform a)) job.approval,
      "human decision approval is not auditable",
    )
    ∷ (
      not (is_recovery_history platform job.id (recoveries_of job)),
      "job has invalid automatic recovery history",
    )
    ∷ (
      holds_of (λ a. a.basis == some policy_rule && not (is_recorded (recoveries_of job) a))
          job.approval,
      "policy approval has no automatic recovery history",
    )
    ∷ (
      some_of (λ r. not (is_reassessment platform r)) (job.reassessments otherwise []),
      "job has an invalid reassessment record",
    )
    ∷ []

-- `["<lane>_running", "blocked", "recovery_approved", "cancelled"].includes(job.state)`
abbrev pub admits_attempt : JobState → Lane → Bool
admits_attempt state lane =
    state == elim lane [ worker ↦ worker_running | reviewer ↦ reviewer_running ]
    || state == blocked
    || state == recovery_approved
    || state == JobState.cancelled

attempt_tests : Platform → Job → List (Bool × String)
attempt_tests platform job =
    (
      (job.state == worker_running || job.state == reviewer_running) && is_none job.active_attempt,
      "the running state requires an active attempt",
    )
    ∷ (
      holds_of (λ a. not (admits_attempt job.state a.lane)) job.active_attempt,
      "the attempt is bound to an invalid state",
    )
    ∷ (
      holds_of (λ a. holds_of (λ s. not (is_hex 40 s)) a.expected_remote_head_sha)
          job.active_attempt,
      "attempt has an invalid remote HEAD anchor",
    )
    ∷ (
      holds_of (λ a. holds_of (λ d. not (is_hex 64 d)) a.plan_digest) job.active_attempt,
      "attempt has an invalid plan digest",
    )
    ∷ (
      holds_of (λ a. is_some a.execution_snapshot && is_none a.plan_digest) job.active_attempt,
      "attempt execution snapshot requires a plan digest",
    )
    ∷ (
      holds_of (λ a. holds_of (λ r. not (is_receipt a r)) a.reviewer_validation_receipt)
          job.active_attempt,
      "attempt has an invalid Reviewer validation receipt binding",
    )
    ∷ []

last_tests : Platform → Job → List (Bool × String)
last_tests platform job =
    (
      holds_of (λ a. holds_of (λ h. not (is_typed_handoff platform h)) (envelope_handoff a))
          job.active_attempt,
      "job has an invalid typed handoff",
    )
    ∷ (
      holds_of (λ a. holds_of (λ h. not (targets_attempt job a h)) (envelope_handoff a))
          job.active_attempt,
      "attempt handoff targets different work",
    )
    ∷ (
      holds_of (λ a. ltb max_attempt_reconciliations (a.reconciliation_attempts otherwise 0))
          job.active_attempt,
      "attempt has an invalid reconciliation count",
    )
    ∷ (
      (job.state == publish_ready || job.state == awaiting_merge || job.state == JobState.done)
          && is_falsy job.head_sha,
      "the state requires headSha",
    )
    ∷ (
      holds_of (λ a. a.task_digest /= job.task.digest) job.analyst,
      "analyst is bound to a different task digest",
    )
    ∷ []

-- The message that is thrown, if one is.
unfoldable pub assert_job_invariant : Platform → Job → Option String
unfolding claim_tests ci_tests incident_tests approval_tests attempt_tests last_tests
assert_job_invariant platform job = first_failure (
    claim_tests platform job
    ++ (ci_tests platform job
        ++ (incident_tests platform job
            ++ (approval_tests platform job
                ++ (attempt_tests platform job
                    ++ (checkpoint_tests platform job ++ last_tests platform job))))))
