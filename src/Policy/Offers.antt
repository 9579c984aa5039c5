-- ===== src/Policy/Offers.antt =====
-- src/policy.ts: what must hold for an action to be offered to the operator or authorized.
use herdr_harness_lite.Policy.Operator.{
  make_operator_action, ActionKind, OperatorAction, holds_of, action_kind_eq, retry, approve_retry,
  effect_eq, is_decision_resolution_eligible,
}
use herdr_harness_lite.Policy.Projection.{operator_actions_for, operator_actions_of}
use herdr_harness_lite.Model.Incident.{
  BlockClass, Incident, AnalystAdvice, RecoveryAction, IncidentLane, recovery_action_eq, hold,
  is_retry_action,
}
use herdr_harness_lite.Model.Job.{Job, blocked}
use herdr_harness_lite.Policy.{allowed_actions_for}
use herdr_harness_lite.Base.{
  some_of, includes, Bool, ◌≡◌, true, find, some, none, arith, List, ◌==◌,
}
use herdr_harness_lite.Model.Platform.{Platform}

-- The tests of src/recovery.ts on the actions that a Job offers.
abbrev pub offers : ActionKind → List OperatorAction → Bool
offers kind actions = some_of (λ a. a.kind == kind) actions

-- `option.effect === job.analysis.action` of the first action that approves a retry
abbrev pub grants : RecoveryAction → List OperatorAction → Bool
grants action actions =
    holds_of (λ o. o.effect == retry action) (find (λ a. a.kind == approve_retry) actions)

-- A Job that waits for its operator: blocked, with no approval, and analysed at its own incident.
abbrev pub IsUndecided : Job → Incident → AnalystAdvice → Type 0
IsUndecided job incident analysis =
    (job.state ≡ blocked) × (job.approval ≡ none) × (analysis.incident_id ≡ incident.id)

-- The class of the incident allows the action, and so does the incident's own list.
abbrev pub Allows : Incident → RecoveryAction → Type 0
Allows incident action =
    (includes incident.allowed_actions action ≡ true)
    × (includes (allowed_actions_for incident.block_class incident.lane) action ≡ true)

-- `hold` is always allowed.
pub allowed_actions_for-holds :
    (class : BlockClass) (lane : IncidentLane)
    → includes (allowed_actions_for class lane) hold ≡ true
unfolding allowed_actions_for includes
allowed_actions_for-holds class lane = ground arith

pub operator_actions_for-IsUndecided :
    (platform : Platform) (job : Job) (incident : Incident) (analysis : AnalystAdvice)
    (kind : ActionKind)
    → job.incident ≡ some incident
    → job.analysis ≡ some analysis
    → offers kind (operator_actions_for platform job) ≡ true
    → IsUndecided job incident analysis
unfolding operator_actions_for some_of
operator_actions_for-IsUndecided platform job incident analysis kind i a h = ground arith

-- If cancellation is offered for a Job with an incident and an analysis, then the analysis holds,
-- the claim is confirmed and there is no pull request.
pub cancel_offered :
    (platform : Platform) (job : Job) (incident : Incident) (analysis : AnalystAdvice)
    → job.incident ≡ some incident
    → job.analysis ≡ some analysis
    → offers ActionKind.cancel (operator_actions_for platform job) ≡ true
    → (analysis.action ≡ hold) × (job.claim_confirmed ≡ true) × (job.pull_request ≡ none)
unfolding operator_actions_for operator_actions_of some_of make_operator_action
cancel_offered platform job incident analysis i a h = ground arith

-- If the approval of a retry is offered for a Job with an incident and an analysis, then it is the
-- action that the analysis advises, it is a retry, and both the incident and the policy of its
-- class allow it.
pub retry_offered :
    (platform : Platform) (job : Job) (incident : Incident) (analysis : AnalystAdvice)
    (action : RecoveryAction)
    → job.incident ≡ some incident
    → job.analysis ≡ some analysis
    → grants action (operator_actions_for platform job) ≡ true
    → (action ≡ analysis.action) × (is_retry_action action ≡ true) × Allows incident action
unfolding operator_actions_for operator_actions_of find make_operator_action
retry_offered platform job incident analysis action i a h = ground arith

pub decision_offered :
    (platform : Platform) (job : Job) (incident : Incident) (analysis : AnalystAdvice)
    → job.incident ≡ some incident
    → job.analysis ≡ some analysis
    → offers ActionKind.resolve_decision (operator_actions_for platform job) ≡ true
    → is_decision_resolution_eligible job ≡ true
unfolding operator_actions_for operator_actions_of some_of make_operator_action
decision_offered platform job incident analysis i a h = ground arith
