-- ===== src/Controller/RecoveringSteps.antt =====
-- src/controller/recovery-flow.ts: under which approval a recovery makes its Job ready.
use herdr_harness_lite.Controller.Action.{Action, System}
use herdr_harness_lite.Controller.Ports.{Deps}
use herdr_harness_lite.Model.Job.{
  HarnessState, Job, blocked, job_state_eq, pull_request_status_eq, reviewer_ready, worker_ready,
}
use herdr_harness_lite.Model.Incident.{
  recovery_action_eq, Approval, Incident, integrity_violation, retry_fresh_reviewer, AnalystAdvice,
  retry_fresh_worker, human_decision, policy_rule,
}
use herdr_harness_lite.Base.{
  arith, includes, ◌≡◌, true, Option, false, if◌then◌else◌, refl, none, some, is_none, inl, ◌<◌,
  ◌⊎◌, inr, ◌≢◌,
}
use herdr_harness_lite.Controller.Applying.{
  apply_bound, is_bound_approval, retried_state, approved, apply_approved, is_analysis_free, agrees,
  apply_recovery,
}
use herdr_harness_lite.Controller.Steps.{Steps, StepTo, or_else-Steps}
use herdr_harness_lite.Controller.Saves.{block-Steps}
use herdr_harness_lite.Controller.Context.{TickResult, by_controller, block}
use herdr_harness_lite.Controller.Boundary.{is_provider_approval}
use herdr_harness_lite.Controller.ApplyingSteps.{apply_bound-Steps}
use herdr_harness_lite.Controller.DeliverySteps.{Steps→Step}
use herdr_harness_lite.Policy.{allowed_actions_for}
use herdr_harness_lite.Policy.Operator.{is_decision_resolution_eligible}
use herdr_harness_lite.Policy.Automatic.{is_automatic_recovery_approval}
use herdr_harness_lite.Controller.PassedBoundary.{Stands}
use herdr_harness_lite.Controller.BlockedSteps.{SettledLate, reconcile_late-Checks, wider-Steps}
use herdr_harness_lite.Controller.Blocked.{reconcile_late}

-- The approval is backed: by no advice, for a retry of the Provider's rule that names none, or by the Job's
-- advice, with which it agrees unless a human has decided.
abbrev pub Backed : Job → Approval → Type 0
Backed job approval =
    ((job.analysis ≡ none) × (approval.analysis_id ≡ none) × (is_provider_approval job ≡ true))
    ⊎ ((advice : AnalystAdvice) × (job.analysis ≡ some advice)
        × (approval.analysis_id ≡ some advice.id)
        × ((approval.action ≡ advice.action)
            ⊎ ((approval.basis ≡ some human_decision)
                × (is_decision_resolution_eligible job ≡ true))))

-- The approval is of an earlier revision and about the incident, the incident and the policy of its class
-- allow the action, advice or a human's decision backs it, and a policy's approval is the automatic one of
-- the incident's candidate.
abbrev pub IsBound : Job → Approval → Incident → Type 0
IsBound job approval incident =
    (approval.job_revision < job.revision)
    × (approval.incident_id ≡ incident.id)
    × (includes incident.allowed_actions approval.action ≡ true)
    × (includes (allowed_actions_for incident.block_class incident.lane) approval.action ≡ true)
    × ((approval.basis ≢ some policy_rule) ⊎ (is_automatic_recovery_approval job approval ≡ true))
    × Backed job approval

-- The Job is blocked; or its approval is bound, the boundary of a Provider's retry stands, and it is ready for the lane that the approved retry names,
-- without an Attempt and without an incident.
abbrev pub Recovered : {E : Type 0} → Deps E → Job → Job → Type 0
Recovered deps job j =
    (j.state ≡ blocked)
    ⊎ ((approval : Approval) × (incident : Incident) × (job.approval ≡ some approval)
        × (job.incident ≡ some incident)
        × IsBound job approval incident
        × ((is_provider_approval job ≡ false) ⊎ Stands deps job)
        × (((approval.action ≡ retry_fresh_reviewer) × (j.state ≡ reviewer_ready))
            ⊎ ((approval.action ≡ retry_fresh_worker) × (j.state ≡ worker_ready)))
        × (j.active_attempt ≡ none)
        × (j.incident ≡ none))

agreed-Backed :
    (job : Job) (approval : Approval) (o : Option AnalystAdvice)
    → job.analysis ≡ o
    → (if is_analysis_free job approval
        then is_none o
        else elim o [ none ↦ false | some advice ↦ agrees job approval advice ])
      ≡ true
    → Backed job approval
agreed-Backed job approval none e h = inl (ground arith)
agreed-Backed job approval (some advice) e h = inr (advice, e, ground arith, ground arith)

approval-IsBound :
    (job : Job) (approval : Approval) (incident : Incident)
    → is_bound_approval job approval incident ≡ true
    → IsBound job approval incident
unfolding is_bound_approval
approval-IsBound job approval incident h =
    ground (arith, agreed-Backed job approval job.analysis refl)

bound-retries :
    (job : Job) (approval : Approval) (incident : Incident)
    → is_bound_approval job approval incident ≡ true
    → ((approval.action ≡ retry_fresh_reviewer) × (retried_state approval.action ≡ reviewer_ready))
      ⊎ ((approval.action ≡ retry_fresh_worker) × (retried_state approval.action ≡ worker_ready))
unfolding is_bound_approval
bound-retries job approval incident h = ground arith

approved-lem :
    (job : Job) (approval : Approval) (incident : Incident)
    → approved job ≡ some (approval, incident)
    → (job.approval ≡ some approval) × (job.incident ≡ some incident)
unfolding approved
approved-lem job approval incident e = ground arith

module _ {E : Type 0} (deps : Deps E) (state : HarnessState) (job : Job) where
  retried-Recovered :
      (approval : Approval) (incident : Incident) (j : Job)
      → approved job ≡ some (approval, incident)
      → is_bound_approval job approval incident ≡ true
      → (is_provider_approval job ≡ false) ⊎ Stands deps job
      → j.state ≡ retried_state approval.action
      → j.active_attempt ≡ none
      → j.incident ≡ none
      → Recovered deps job j
  retried-Recovered approval incident j e bound guarded ready no_attempt no_incident =
      let (has_approval, has_incident) = approved-lem job approval incident e in
      inr (
        approval,
        incident,
        has_approval,
        has_incident,
        approval-IsBound job approval incident bound,
        guarded,
        ground (arith, bound-retries job approval incident bound),
        no_attempt,
        no_incident,
      )

  apply_approved-runs : Steps deps state job (Recovered deps job) (apply_approved deps state job)
  unfolding apply_approved
  apply_approved-runs = go (approved job) refl
    where
      lost : Action E TickResult
      lost = block deps state job (
          by_controller integrity_violation
            "approved recovery lost its incident or analysis binding")

      go :
          (o : Option (Approval × Incident))
          → approved job ≡ o
          → Steps deps state job
              (Recovered deps job)
              (elim o [ none ↦ lost | some (a, i) ↦ apply_bound deps state job a i ])
      go none e = block-Steps deps state job (Recovered deps job) _ (λ j b. inl b)
      go (some (a, i)) e =
          apply_bound-Steps deps state job (Recovered deps job) (λ j b. inl b) a i
            (λ bound guarded j ready attempt incident.
              retried-Recovered a i j e bound guarded ready attempt incident)

  -- A run of the approval's part of `apply_recovery` leaves the ledger as it was, or with the next revision
  -- of the same Job, which satisfies the invariant. It is blocked; or the Job's approval is of an earlier
  -- revision, about its incident, allowed by the incident and by the policy of its class, and backed by the
  -- Job's advice, a human's decision or the policy's rule, a Provider's retry has been inspected and has left
  -- neither a result nor a change nor a commit, and the new Job is ready for a review if the
  -- approved retry is a Reviewer's, and for a Worker if it is a Worker's, without an Attempt and an incident.
  pub apply_approved-Retries :
      (s : System E)
      → StepTo deps.platform state job
          (Recovered deps job)
          s.ledger
          (apply_approved deps state job s).1.ledger
  apply_approved-Retries s =
      Steps→Step deps state job (Recovered deps job) (apply_approved deps state job) s
        apply_approved-runs

  -- A run of `apply_recovery` leaves the ledger as it was, or with the next revision of the same Job, which
  -- satisfies the invariant. Either a late result of its Attempt was observed, and it is in a state that this
  -- result allows; or it is blocked; or it is ready for the lane that its approval names, which is bound to
  -- the Job, its incident and its analysis, and the boundary of a Provider's retry stands.
  pub apply_recovery-Applies :
      (s : System E)
      → StepTo deps.platform state job
          (λ j. SettledLate deps job j ⊎ Recovered deps job j)
          s.ledger
          (apply_recovery deps state job s).1.ledger
  unfolding apply_recovery
  apply_recovery-Applies s =
      let Wanted : Job → Type 0 = λ j. SettledLate deps job j ⊎ Recovered deps job j in
      Steps→Step deps state job Wanted (apply_recovery deps state job) s (
        or_else-Steps deps state job Wanted (reconcile_late deps state job)
          (apply_approved deps state job)
          (reconcile_late-Checks deps state job Wanted (λ j l. inl l))
          (wider-Steps deps state job (Recovered deps job) Wanted (apply_approved deps state job)
            (λ j r. inr r) apply_approved-runs))
