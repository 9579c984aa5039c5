-- ===== src/Controller/Applying.antt =====
-- src/controller/recovery-flow.ts: `applyRecovery`, the tick of a Job whose recovery is approved.
use herdr_harness_lite.Controller.Action.{
  ◌>>=◌, ◌>>◌, Action, perform, or_check, or_else, fail, pure, attempt, now,
}
use herdr_harness_lite.Model.Job.{
  Job, PullRequestStatus, JobState, PullRequestRef, PullRequestObservation, HarnessState,
  reviewer_ready, evolve_job, worker_ready, max_ci_reworks, pull_request_status_eq,
}
use herdr_harness_lite.Model.Incident.{
  RecoveryAction, Approval, Incident, AnalystAdvice, AutomaticRecovery, retry_fresh_worker,
  retry_fresh_reviewer, BlockClass, is_retry_action, infrastructure_exhausted, human_decision,
  controller, integrity_violation, recovery_action_eq, approval_basis_eq, reviewer_preflight_dirty,
  policy_rule, block_class_eq, incident_lane_eq, validation_infrastructure, of_lane,
}
use herdr_harness_lite.Policy.Operator.{is_decision_resolution_eligible}
use herdr_harness_lite.Controller.Ports.{Deps, Outcome, ok, throw, CloseReason}
use herdr_harness_lite.Controller.Context.{
  block, save_job, TickResult, by_controller, result, recovery_applied,
}
use herdr_harness_lite.Controller.Boundary.{verify_provider_boundary, is_provider_approval, refuse}
use herdr_harness_lite.Base.{
  String, Option, Bool, if◌then◌else◌, none, ◌==◌, ltb, ◌/=◌, some, ◌&&◌, is_none, ◌++◌, string_eq,
  not, ◌otherwise◌, false, ◌∷◌, ◌||◌, option_eq, [], true, map, includes, ◌+◌,
}
use herdr_harness_lite.Policy.Automatic.{is_automatic_recovery_approval, recoveries_of}
use herdr_harness_lite.Controller.Blocked.{reconcile_late}
use herdr_harness_lite.Controller.Closing.{close_attempt, settle_attempt}
use herdr_harness_lite.Model.Attempt.{Attempt}
use herdr_harness_lite.Policy.{allowed_actions_for}
use herdr_harness_lite.Controller.Integrity.{verify_reviewer_preflight}
use herdr_harness_lite.Model.Handoff.{TypedHandoff}
use herdr_harness_lite.Handoff.{approved_recovery_handoff}
use herdr_harness_lite.Base.Text.{◌<>◌}
use herdr_harness_lite.Model.Snapshot.{reviewer, lane_eq}

-- A retry of the Provider's rule that no advice backs.
abbrev pub is_analysis_free : Job → Approval → Bool
is_analysis_free job approval = is_provider_approval job && is_none approval.analysis_id

-- The advice agrees with the approval, or a human's decision stands for it.
abbrev pub agrees : Job → Approval → AnalystAdvice → Bool
agrees job approval advice =
    approval.analysis_id == some advice.id
    && (if approval.basis == some human_decision
        then is_decision_resolution_eligible job
        else approval.action == advice.action)

-- The approval is bound to the Job, its incident and its analysis.
unfoldable pub is_bound_approval : Job → Approval → Incident → Bool
unfolding is_decision_resolution_eligible is_automatic_recovery_approval allowed_actions_for
is_bound_approval job approval incident =
    ltb approval.job_revision job.revision
    && approval.incident_id == incident.id
    && is_retry_action approval.action
    && (if is_analysis_free job approval
        then is_none job.analysis
        else elim job.analysis [ none ↦ false | some advice ↦ agrees job approval advice ])
    && (approval.basis /= some policy_rule || is_automatic_recovery_approval job approval)
    && includes incident.allowed_actions approval.action
    && includes (allowed_actions_for incident.block_class incident.lane) approval.action

abbrev pub is_ci_recovery : Approval → Incident → Bool
is_ci_recovery approval incident =
    approval.action == retry_fresh_worker && incident.block_class == BlockClass.ci_failure

-- The pull request of a rework of failed checks, if all is as it was.
unfoldable pub reworked_pull_request : Job → Incident → Option PullRequestRef
reworked_pull_request job incident = elim job.pull_request [
  | none ↦ none
  | some pr ↦ elim job.ci_failure [
    | none ↦ none
    | some failure ↦
        if incident.lane == controller
          && is_none incident.attempt_id
          && is_none job.active_attempt
          && failure.head_sha == pr.head_sha
          && job.head_sha == some pr.head_sha
          && ltb (job.ci_rework_count otherwise 0) max_ci_reworks
        then some pr
        else none
  ]
]

-- The Reviewer's Attempt that a fresh Reviewer replaces, if the incident is about it.
unfoldable pub replaced_review : Job → Incident → Option Attempt
replaced_review job incident = elim job.active_attempt [
  | none ↦ none
  | some a ↦
      if (incident.block_class == infrastructure_exhausted
          || incident.block_class == reviewer_preflight_dirty
          || incident.block_class == validation_infrastructure)
        && incident.lane == of_lane reviewer
        && a.lane == reviewer
        && incident.attempt_id == some a.id
      then some a
      else none
]

abbrev status_text : PullRequestStatus → String
status_text PullRequestStatus.is_opened = "open"
status_text PullRequestStatus.merged = "merged"
status_text PullRequestStatus.closed_unmerged = "closed_unmerged"

-- The state that a retry is prepared in.
abbrev pub retried_state : RecoveryAction → JobState
retried_state action = if action == retry_fresh_reviewer then reviewer_ready else worker_ready

abbrev consume : Approval → String → AutomaticRecovery → AutomaticRecovery
consume approval at entry =
    if entry.approval.id == approval.id
    then record entry { approval = record entry.approval { consumed_at = some at } }
    else entry

-- The Job whose approved recovery is consumed.
abbrev pub recovered : Job → Approval → Incident → TypedHandoff → String → Job → Job
recovered job approval incident handoff at j = record j {
  state = retried_state approval.action;
  active_attempt = none;
  attempts = elim job.active_attempt [
    | none ↦ job.attempts
    | some a ↦ job.attempts ++ (settle_attempt a a.result at ∷ [])
  ];
  pending_handoff = some handoff;
  incident = none;
  analysis = none;
  approval = some (record approval { consumed_at = some at });
  automatic_recoveries =
      if approval.basis == some policy_rule
      then some (map (consume approval at) (recoveries_of job))
      else job.automatic_recoveries;
  ci_rework_count =
      if is_ci_recovery approval incident
      then some ((job.ci_rework_count otherwise 0) + 1)
      else j.ci_rework_count;
  last_error = none;
}

-- The approval and the incident of a recovery that advice backs, or that needs none.
unfoldable pub approved : Job → Option (Approval × Incident)
approved job = elim job.approval [
  | none ↦ none
  | some approval ↦ elim job.incident [
    | none ↦ none
    | some incident ↦
        if is_none job.analysis && not (is_analysis_free job approval)
        then none
        else some (approval, incident)
  ]
]

module _ {E : Type 0} (deps : Deps E) where
  abbrev pub suspend_if_open : Job → PullRequestRef → PullRequestObservation → Action E (Unit {0})
  suspend_if_open job pr o =
      if o.status /= PullRequestStatus.is_opened
      then fail ("PR is " <> status_text o.status)
      else if o.auto_merge_enabled
      then perform (deps.ports.suspend_auto_merge job.task.repo pr)
      else pure tt

  -- The pull request is open and will not merge by itself.
  unfoldable pub make_safe : Job → PullRequestRef → Action E (Unit {0})
  make_safe job pr =
      perform (deps.ports.observe_pull_request job.task.repo pr) >>= suspend_if_open job pr

  abbrev pub on_made_safe : Job → Outcome (Unit {0}) → Action E (Option TickResult)
  on_made_safe job (ok _) = pure none
  on_made_safe job (throw message) = pure (
      some
        (result false recovery_applied job ("CI recovery safety check is retryable: " <> message)))

  unfoldable pub check_ci_recovery :
      HarnessState → Job → Approval → Incident → Action E (Option TickResult)
  unfolding block make_safe reworked_pull_request
  check_ci_recovery state job approval incident =
      if not (is_ci_recovery approval incident)
      then pure none
      else elim (reworked_pull_request job incident) [
        | none ↦ refuse deps state job (
            by_controller integrity_violation
              "fresh Worker CI recovery lost its exact PR or Git binding")
        | some pr ↦ attempt (make_safe job pr) >>= on_made_safe job
      ]

  unfoldable pub check_review_recovery :
      HarnessState → Job → Approval → Incident → Action E (Option TickResult)
  unfolding block verify_reviewer_preflight replaced_review
  check_review_recovery state job approval incident =
      if approval.action /= retry_fresh_reviewer
      then pure none
      else elim (replaced_review job incident) [
        | none ↦
            refuse deps state job
              (record (by_controller integrity_violation
                "fresh Reviewer recovery lost its exact incident or Git binding") {
                  attempt_result = elim job.active_attempt [ none ↦ none | some a ↦ a.result ];
                })
        | some a ↦ verify_reviewer_preflight deps state job a job.head_sha a.result
      ]

  abbrev pub on_old_closed : Job → Outcome (Unit {0}) → Action E (Option TickResult)
  on_old_closed job (ok _) = pure none
  on_old_closed job (throw message) = pure (
      some
        (result false recovery_applied job ("old agent could not be closed safely: " <> message)))

  -- The pane of the old Attempt, if it has one.
  unfoldable pub close_old : Job → Action E (Option TickResult)
  unfolding close_attempt
  close_old job = elim job.active_attempt [
    | none ↦ pure none
    | some a ↦
        if is_none a.handle
        then pure none
        else attempt (close_attempt deps a CloseReason.recovery) >>= on_old_closed job
  ]

  unfoldable pub consume_recovery :
      HarnessState → Job → Approval → Incident → String → Action E TickResult
  unfolding save_job approved_recovery_handoff settle_attempt
  consume_recovery state job approval incident at =
      let analysis = if is_analysis_free job approval then none else job.analysis in
      let handoff = approved_recovery_handoff deps.platform job incident analysis approval at in
      save_job deps state job (evolve_job job at (recovered job approval incident handoff at))
      >> pure (
          result true recovery_applied job (
            (if approval.basis == some policy_rule then "policy authorization" else "approval")
            <> " consumed; a fresh "
            <> (if approval.action == retry_fresh_reviewer then "Reviewer" else "Worker")
            <> " attempt is now required"))

  -- The checks before a bound approval is consumed, in their order.
  unfoldable pub check_recovery :
      HarnessState → Job → Approval → Incident → Action E (Option TickResult)
  unfolding check_ci_recovery verify_provider_boundary check_review_recovery close_old
  check_recovery state job approval incident =
      or_check (check_ci_recovery state job approval incident) (
        or_check (verify_provider_boundary deps state job)
          (or_check (check_review_recovery state job approval incident) (close_old job)))

  unfoldable pub apply_bound : HarnessState → Job → Approval → Incident → Action E TickResult
  unfolding block is_bound_approval check_recovery consume_recovery
  apply_bound state job approval incident =
      if not (is_bound_approval job approval incident)
      then block deps state job
          (by_controller integrity_violation "approval binding is stale or inconsistent")
      else or_else (check_recovery state job approval incident)
          (now deps >>= consume_recovery state job approval incident)

  unfoldable pub apply_approved : HarnessState → Job → Action E TickResult
  unfolding block approved apply_bound
  apply_approved state job = elim (approved job) [
    | none ↦ block deps state job (
        by_controller integrity_violation "approved recovery lost its incident or analysis binding")
    | some (approval, incident) ↦ apply_bound state job approval incident
  ]

  unfoldable pub apply_recovery : HarnessState → Job → Action E TickResult
  unfolding reconcile_late apply_approved
  apply_recovery state job = or_else (reconcile_late deps state job) (apply_approved state job)
