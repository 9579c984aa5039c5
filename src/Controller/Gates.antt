-- ===== src/Controller/Gates.antt =====
-- src/recovery.ts: the operator's gates. Each reads the ledger, checks that the request names the Job's
-- exact revision, incident and analysis, and saves one transition.
use herdr_harness_lite.Controller.Action.{
  Action, save, ◌>>=◌, ◌>>◌, require_some, require, load, pure, now, next_id,
}
use herdr_harness_lite.Controller.Ports.{Deps}
use herdr_harness_lite.Base.{ℕ, String, some, ◌==◌, none, nat_eq, string_eq}
use herdr_harness_lite.Policy.Operator.{ActionKind, action_kind_eq, effect_eq}
use herdr_harness_lite.Model.Job.{
  HarnessState, Job, recovery_approved, evolve_job, blocked, JobState, job_state_eq,
}
use herdr_harness_lite.Model.Incident.{
  Cancellation, Incident, RecoveryAction, Approval, AnalystAdvice, is_retry_action, ApprovalBasis,
  retry_fresh_worker, human_decision, analyst_advice,
}
use herdr_harness_lite.Base.Text.{is_bounded_text, ◌<>◌, show_number}
use herdr_harness_lite.Policy.Projection.{operator_actions_for}
use herdr_harness_lite.Model.Encode.{class_text, action_text}
use herdr_harness_lite.Policy.Offers.{grants, offers}

pub record ApprovalRequest : Type 0 where
  pub expected_revision : ℕ
  pub incident_id : String
  pub analysis_id : String
  pub actor : String
  pub reason : String

module _ {E : Type 0} (deps : Deps E) where
  -- The checks that open every gate. `noun`, `deed` and `awaiting` are its words in the messages.
  unfoldable pub open_gate :
      String → String → String → ApprovalRequest → Action E (HarnessState × Job × Incident)
  open_gate noun deed awaiting request = do
    require (is_bounded_text request.actor 512) (noun <> " actor is required and bounded")
    require (is_bounded_text request.reason 2000) (noun <> " reason is required and bounded")
    state ← load deps
    job ← require_some state.active_job "no active job"
    require (job.revision == request.expected_revision) (
        "stale job revision: expected "
        <> show_number request.expected_revision
        <> ", current "
        <> show_number job.revision)
    require (job.state == blocked) awaiting
    incident ← require_some job.incident awaiting
    require (incident.id == request.incident_id) ("incident changed before " <> deed)
    pure (state, job, incident)

  -- `{ ...state, activeJob: job }`, saved against the revision that was read.
  unfoldable pub save_active : HarnessState → Job → Job → Action E (Unit {0})
  save_active state job next =
      save deps (record state { active_job = some next }) (some job.revision)

  -- The checks of `cancelHeldJob`.
  unfoldable pub cancellation_gate :
      ApprovalRequest → Action E (HarnessState × Job × Incident × AnalystAdvice)
  unfolding open_gate
  cancellation_gate request = do
    (state, job, incident) ←
        open_gate "cancellation" "cancellation" "job is not an exact blocked job" request
    analysis ← require_some job.analysis "analysis changed before cancellation"
    require (analysis.id == request.analysis_id) "analysis changed before cancellation"
    require (offers ActionKind.cancel (operator_actions_for deps.platform job))
        "only the exact active Analyst hold can be cancelled"
    pure (state, job, incident, analysis)

  abbrev pub cancel_by : Cancellation → Job → Job
  cancel_by cancellation j = record j {
    state = JobState.cancelled;
    cancellation = some cancellation;
  }

  unfoldable pub cancel_held_job : ApprovalRequest → Action E Cancellation
  unfolding cancellation_gate save_active
  cancel_held_job request = do
    (state, job, incident, analysis) ← cancellation_gate request
    created_at ← now deps
    id ← next_id deps "cancellation"
    let cancellation : Cancellation = record {
      id = id;
      job_revision = job.revision;
      incident_id = incident.id;
      analysis_id = analysis.id;
      actor = request.actor;
      reason = request.reason;
      created_at = created_at;
    }
    save_active state job (evolve_job job created_at (cancel_by cancellation))
    pure cancellation

  -- What `approveRecovery` and `resolveDecision` save: the Job waits for its recovery to be applied.
  abbrev pub approve : Approval → Job → Job
  approve approval j = record j {
    state = recovery_approved;
    approval = some approval;
    last_error = none;
  }

  abbrev pub make_approval :
      ApprovalRequest
      → RecoveryAction
      → ApprovalBasis
      → Job
      → Incident
      → AnalystAdvice
      → String
      → String
      → Approval
  make_approval request action basis job incident analysis at id = record {
    id = id;
    job_revision = job.revision;
    incident_id = incident.id;
    analysis_id = some analysis.id;
    action = action;
    basis = some basis;
    policy_rule_name = none;
    fingerprint = none;
    actor = request.actor;
    reason = request.reason;
    created_at = at;
    consumed_at = none;
  }

  -- The end of `approveRecovery` and of `resolveDecision`, once their checks have passed.
  unfoldable pub grant :
      ApprovalRequest
      → RecoveryAction
      → ApprovalBasis
      → HarnessState × Job × Incident × AnalystAdvice
      → Action E Approval
  unfolding save_active
  grant request action basis (state, job, incident, analysis) = do
    at ← now deps
    id ← next_id deps "approval"
    let approval = make_approval request action basis job incident analysis at id
    save_active state job (evolve_job job at (approve approval))
    pure approval

  -- The checks of `approveRecovery`.
  unfoldable pub approval_gate :
      ApprovalRequest → Action E (HarnessState × Job × Incident × AnalystAdvice)
  unfolding open_gate
  approval_gate request = do
    (state, job, incident) ←
        open_gate "approval" "approval" "job is not awaiting a recovery decision" request
    analysis ← require_some job.analysis "no ready analyst advice"
    require (analysis.id == request.analysis_id) "analysis changed before approval"
    require (analysis.incident_id == incident.id) "analysis is not bound to the active incident"
    require (is_retry_action analysis.action) "analyst did not recommend retry"
    require (grants analysis.action (operator_actions_for deps.platform job)) (
        "incident class "
        <> class_text incident.block_class
        <> " forbids "
        <> action_text analysis.action)
    pure (state, job, incident, analysis)

  unfoldable pub approve_recovery : ApprovalRequest → Action E Approval
  unfolding approval_gate grant
  approve_recovery request = do
    (state, job, incident, analysis) ← approval_gate request
    grant request analysis.action analyst_advice (state, job, incident, analysis)

  -- The checks of `resolveDecision`.
  unfoldable pub decision_gate :
      ApprovalRequest → Action E (HarnessState × Job × Incident × AnalystAdvice)
  unfolding open_gate
  decision_gate request = do
    (state, job, incident) ←
        open_gate "decision" "decision resolution" "job is not awaiting a decision resolution"
          request
    analysis ← require_some job.analysis "analysis changed before decision resolution"
    require (analysis.id == request.analysis_id) "analysis changed before decision resolution"
    require (offers ActionKind.resolve_decision (operator_actions_for deps.platform job))
        "job is not eligible for decision resolution"
    pure (state, job, incident, analysis)

  unfoldable pub resolve_decision : ApprovalRequest → Action E Approval
  unfolding decision_gate grant
  resolve_decision request = do
    (state, job, incident, analysis) ← decision_gate request
    grant request retry_fresh_worker human_decision (state, job, incident, analysis)
