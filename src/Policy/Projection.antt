-- ===== src/Policy/Projection.antt =====
-- src/policy.ts: `operatorActionsFor` and `projectOperatorState`.
use herdr_harness_lite.Model.Platform.{Platform}
use herdr_harness_lite.Base.{
  Option, String, List, none, ◌==◌, ℕ, [], ◌||◌, some, if◌then◌else◌, ◌/=◌, is_some, ◌&&◌, not,
  is_empty, includes, string_eq, ◌∷◌, ◌++◌, is_none,
}
use herdr_harness_lite.Model.Job.{
  JobState, HarnessState, claimed, Job, worker_ready, worker_running, reviewer_ready,
  reviewer_running, awaiting_merge, publish_ready, blocked, recovery_approved, job_state_eq,
}
use herdr_harness_lite.Model.Incident.{
  recovery_action_eq, Incident, AnalystAdvice, is_retry_action, retry_fresh_worker, hold,
}
use herdr_harness_lite.Policy.Operator.{
  OperatorAction, make_operator_action, approve_retry, retry, is_decision_resolution_eligible,
  resolve_decision, reassess, rerun_analysis, ActionKind, cancel_and_requeue,
}
use herdr_harness_lite.Policy.{allowed_actions_for}
use herdr_harness_lite.Policy.Reassess.{reassessment_class_for}

-- The actions that an analysed incident of a blocked Job offers.
unfoldable pub operator_actions_of : Platform → Job → Incident → AnalystAdvice → List OperatorAction
operator_actions_of platform job incident analysis =
    let make = make_operator_action platform job incident analysis in
    (if is_retry_action analysis.action
        && includes incident.allowed_actions analysis.action
        && includes (allowed_actions_for incident.block_class incident.lane) analysis.action
      then make approve_retry (retry analysis.action) ∷ []
      else [])
    ++ ((if is_decision_resolution_eligible job
          then make resolve_decision (retry retry_fresh_worker) ∷ []
          else [])
        ++ ((if is_some (reassessment_class_for job) then make reassess rerun_analysis ∷ [] else [])
            ++ (if analysis.action == hold && job.claim_confirmed && is_none job.pull_request
                then make ActionKind.cancel cancel_and_requeue ∷ []
                else [])))

unfoldable pub operator_actions_for : Platform → Job → List OperatorAction
unfolding operator_actions_of
operator_actions_for platform job = elim job.incident [
  | none ↦ []
  | some incident ↦ elim job.analysis [
    | none ↦ []
    | some analysis ↦
        if job.state /= blocked || is_some job.approval || analysis.incident_id /= incident.id
        then []
        else operator_actions_of platform job incident analysis
  ]
]

pub data Mode : Type 0 where
  idle running waiting needs_decision terminal : Mode

pub data Phase : Type 0 where
  idle claim worker reviewer delivery recovery terminal : Phase

unfoldable pub operator_phase : JobState → Phase
operator_phase claimed = claim
operator_phase worker_ready = Phase.worker
operator_phase worker_running = Phase.worker
operator_phase reviewer_ready = Phase.reviewer
operator_phase reviewer_running = Phase.reviewer
operator_phase publish_ready = delivery
operator_phase awaiting_merge = delivery
operator_phase blocked = recovery
operator_phase recovery_approved = recovery
operator_phase JobState.done = Phase.terminal
operator_phase JobState.cancelled = Phase.terminal

pub record OperatorProjection : Type 0 where
  pub mode : Mode
  pub phase : Phase
  pub job_id : Option String
  pub revision : Option ℕ
  pub state : Option JobState
  pub reason : Option String
  pub actions : List OperatorAction

unfoldable pub project_job : Platform → Job → OperatorProjection
unfolding operator_phase
project_job platform job =
    let actions = operator_actions_for platform job in
    let is_terminal = job.state == JobState.done || job.state == JobState.cancelled in
    let is_waiting =
      job.state == worker_running
      || job.state == reviewer_running
      || job.state == awaiting_merge
      || job.state == blocked in
    record {
      mode =
          if is_terminal
          then Mode.terminal
          else if not (is_empty actions)
          then needs_decision
          else if is_waiting
          then waiting
          else Mode.running;
      phase = operator_phase job.state;
      job_id = some job.id;
      revision = some job.revision;
      state = some job.state;
      reason = elim job.incident [ none ↦ job.last_error | some i ↦ some i.summary ];
      actions = actions;
    }

unfoldable pub project_operator_state : Platform → HarnessState → OperatorProjection
unfolding project_job
project_operator_state platform state = elim state.active_job [
  | none ↦ record {
    mode = Mode.idle;
    phase = Phase.idle;
    job_id = none;
    revision = none;
    state = none;
    reason = none;
    actions = [];
  }
  | some job ↦ project_job platform job
]
