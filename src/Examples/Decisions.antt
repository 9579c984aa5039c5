-- ===== src/Examples/Decisions.antt =====
-- Tests of the policy and of the handoffs.
use native.Mathlib.Decide.{ℕ_discrete}
use herdr_harness_lite.Examples.Data.{
  candidate, changes, worker_attempt, platform, blocked_job_with, worker_result, recorded,
  exhausted, advice, approval,
}
use herdr_harness_lite.Policy.{validate_attempt_result, allowed_actions_for, valid}
use herdr_harness_lite.Model.Attempt.{
  Attempt, running, prepared, settled, AttemptPhase-discrete, WorkerStatus-discrete,
}
use herdr_harness_lite.Handoff.{
  bind_pending_handoff, approved_recovery_handoff, review_changes_handoff, identify,
}
use herdr_harness_lite.Model.Handoff.{TypedHandoff}
use herdr_harness_lite.Policy.Projection.{operator_actions_for, operator_actions_of}
use herdr_harness_lite.Model.Job.{Job, evolve_job, JobState-discrete}
use herdr_harness_lite.Ledger.Handoffs.{is_bound_to_next}
use herdr_harness_lite.Policy.Automatic.{automatic_recovery_for, rule_ready, shared_ready}
use herdr_harness_lite.Base.{
  some, ◌≡◌, none, true, ◌∷◌, [], refl, includes, some_of, find, arith, String-discrete,
  Option-discrete, filter, inr, ◌≢◌, String, false, ap, ◌==◌, sym, ◌∙◌, string_eq,
}
use herdr_harness_lite.Model.Incident.{
  hold, retry_fresh_worker, is_retry_action, RecoveryAction-discrete, BlockClass-discrete,
  IncidentLane-discrete, AutomaticRecoveryRule-discrete,
}
use herdr_harness_lite.Policy.Authorization.{
  IsRecoverable, automatic_recovery_for-IsRecoverable, recorded_once, HasGrounds,
}
use herdr_harness_lite.Policy.Offers.{Allows, cancel_offered, retry_offered}
use herdr_harness_lite.Policy.Results.{Belongs, valid→Belongs, Belongs→valid}
use herdr_harness_lite.Handoff.Bound.{
  handed_on, Targets, bound→Targets, review_changes_handoff-bound, approved_recovery_handoff-bound,
}
use herdr_harness_lite.Model.Snapshot.{worker, Lane-discrete}
use herdr_harness_lite.Base.Text.{is_blank}
use herdr_harness_lite.Policy.Operator.{
  make_operator_action, ActionKind-discrete, Effect-discrete, is_decision_resolution_eligible,
}
use herdr_harness_lite.Policy.Reassess.{reassessment_class_for, is_legacy_worker_head_mismatch}

restart_example :
    IsRecoverable
      (blocked_job_with retry_fresh_worker none)
      exhausted
      (worker_attempt settled none)
      candidate
    × HasGrounds platform
        (blocked_job_with retry_fresh_worker none)
        exhausted
        (worker_attempt settled none)
        (some (advice retry_fresh_worker))
        none
        candidate
unfolding ℕ_discrete automatic_recovery_for shared_ready rule_ready some_of includes String-discrete
    Option-discrete JobState-discrete BlockClass-discrete IncidentLane-discrete
    AttemptPhase-discrete RecoveryAction-discrete Lane-discrete WorkerStatus-discrete
    ActionKind-discrete Effect-discrete AutomaticRecoveryRule-discrete is_blank allowed_actions_for
restart_example =
    automatic_recovery_for-IsRecoverable platform (blocked_job_with retry_fresh_worker none)
      (some (advice retry_fresh_worker)) none exhausted (worker_attempt settled none) candidate refl
      refl refl refl

recorded_example :
    automatic_recovery_for platform
      (blocked_job_with retry_fresh_worker (some (recorded ∷ [])))
      (some (advice retry_fresh_worker))
      none
    ≡ none
unfolding some_of
recorded_example =
    recorded_once platform (blocked_job_with retry_fresh_worker (some (recorded ∷ [])))
      (some (advice retry_fresh_worker)) none exhausted candidate refl refl (ground arith)

accepted_example :
    (some worker_result ≡ some worker_result)
    × Belongs "job-1" (worker_attempt running none) worker_result
unfolding ℕ_discrete validate_attempt_result is_blank includes String-discrete Option-discrete
    JobState-discrete BlockClass-discrete IncidentLane-discrete AttemptPhase-discrete
    RecoveryAction-discrete Lane-discrete WorkerStatus-discrete ActionKind-discrete Effect-discrete
    AutomaticRecoveryRule-discrete allowed_actions_for
accepted_example =
    valid→Belongs "job-1" (worker_attempt running none) (some worker_result) worker_result refl

head-HasText : (h : String) → h ≡ "head" → h ≢ ""
unfolding String-discrete
head-HasText h e f = let wrong : true ≡ false = ap (λ t. t == "head") (sym e ∙ f) in ground arith

belonging_example :
    validate_attempt_result "job-1" (worker_attempt running none) (some worker_result)
    ≡ valid worker_result
unfolding ℕ_discrete includes String-discrete Option-discrete JobState-discrete BlockClass-discrete
    IncidentLane-discrete AttemptPhase-discrete RecoveryAction-discrete Lane-discrete
    WorkerStatus-discrete ActionKind-discrete Effect-discrete AutomaticRecoveryRule-discrete
    is_blank allowed_actions_for
belonging_example =
    Belongs→valid "job-1" (worker_attempt running none) worker_result
      (refl, refl, refl, refl, refl, refl, inr ("head", refl, head-HasText "head" refl))

retry_example :
    (retry_fresh_worker ≡ retry_fresh_worker)
    × (is_retry_action retry_fresh_worker ≡ true)
    × Allows exhausted retry_fresh_worker
unfolding operator_actions_for operator_actions_of some_of find includes make_operator_action
    String-discrete Option-discrete JobState-discrete BlockClass-discrete IncidentLane-discrete
    AttemptPhase-discrete RecoveryAction-discrete Lane-discrete WorkerStatus-discrete
    ActionKind-discrete Effect-discrete AutomaticRecoveryRule-discrete is_blank allowed_actions_for
retry_example =
    retry_offered platform (blocked_job_with retry_fresh_worker none) exhausted
      (advice retry_fresh_worker) retry_fresh_worker refl refl refl

cancel_example : (hold ≡ hold) × (true ≡ true) × ((blocked_job_with hold none).pull_request ≡ none)
unfolding ℕ_discrete is_decision_resolution_eligible reassessment_class_for
    is_legacy_worker_head_mismatch filter operator_actions_for operator_actions_of some_of find
    includes make_operator_action String-discrete Option-discrete JobState-discrete
    BlockClass-discrete IncidentLane-discrete AttemptPhase-discrete RecoveryAction-discrete
    Lane-discrete WorkerStatus-discrete ActionKind-discrete Effect-discrete
    AutomaticRecoveryRule-discrete is_blank allowed_actions_for
cancel_example =
    cancel_offered platform (blocked_job_with hold none) exhausted (advice hold) refl refl refl

abbrev handed : Job
handed = evolve_job (blocked_job_with retry_fresh_worker none) "2026-01-02T00:00:00Z" (
    handed_on
      (approved_recovery_handoff platform (blocked_job_with retry_fresh_worker none) exhausted
        (some (advice retry_fresh_worker)) approval "2026-01-02T00:00:00Z")
      worker)

recovery_handoff_example :
    is_bound_to_next handed (
      approved_recovery_handoff platform
        (blocked_job_with retry_fresh_worker none)
        exhausted
        (some (advice retry_fresh_worker))
        approval
        "2026-01-02T00:00:00Z")
    ≡ true
recovery_handoff_example =
    approved_recovery_handoff-bound platform (blocked_job_with retry_fresh_worker none) exhausted
      (some (advice retry_fresh_worker)) approval "2026-01-02T00:00:00Z"

abbrev review_handoff : TypedHandoff
review_handoff =
    review_changes_handoff platform (blocked_job_with hold none) "head"
      (worker_attempt settled none) changes "2026-01-02T00:00:00Z"

review_handoff_example :
    is_bound_to_next
      (evolve_job
        (blocked_job_with hold none)
        "2026-01-02T00:00:00Z"
        (handed_on review_handoff worker))
      review_handoff
    ≡ true
review_handoff_example =
    review_changes_handoff-bound platform (blocked_job_with hold none) "head"
      (worker_attempt settled none) changes "2026-01-02T00:00:00Z" refl

abbrev next_attempt : Attempt
next_attempt = record (worker_attempt prepared none) { base_sha = "head" }

abbrev next_job : Job
next_job =
    evolve_job (blocked_job_with hold none) "2026-01-02T00:00:00Z" (handed_on review_handoff worker)

bound_example :
    (next_job.pending_handoff ≡ some review_handoff) × Targets next_job next_attempt review_handoff
unfolding bind_pending_handoff evolve_job review_changes_handoff identify
bound_example = bound→Targets next_job next_attempt review_handoff (ground arith)
