-- ===== src/Policy/Reassess.antt =====
-- src/policy.ts: `reassessmentClassFor` and the forms of evidence that old ledgers leave.
use herdr_harness_lite.Model.Job.{Job, blocked, job_state_eq, max_ci_reworks}
use herdr_harness_lite.Base.{
  List, String, ℕ, [], Bool, Option, filter, ◌&&◌, ◌∷◌, none, if◌then◌else◌, ◌||◌, ◌==◌, suc,
  is_none, true, not, some, string_eq, false, includes, ◌/=◌, zero, nat_eq, is_empty, ltb,
  option_eq, ◌otherwise◌,
}
use herdr_harness_lite.Base.Text.{lower_codes, strip_prefix, take_hex, ◌<>◌}
use herdr_harness_lite.Model.Incident.{
  AnalystAdvice, RecoveryAction, Incident, BlockClass, review_uncertain, integrity_violation,
  reviewer_preflight_dirty, infrastructure_exhausted, hold, validation_infrastructure, of_lane,
  ci_rework_exhausted, ci_failure, is_retry_action, controller, block_class_eq, retry_fresh_worker,
  incident_lane_eq, recovery_action_eq, retry_fresh_reviewer,
}
use herdr_harness_lite.Model.Attempt.{
  Attempt, WorkerResult, WorkerStatus, ReviewerStatus, settled, worker_status_eq,
  reviewer_status_eq, attempt_phase_eq,
}
use herdr_harness_lite.Policy.Operator.{holds_of, work_of, review_of}
use herdr_harness_lite.Model.Snapshot.{reviewer, lane_eq, worker}
use herdr_harness_lite.Policy.{allowed_actions_for, is_falsy}
use text.Mathlib.Text.{starts_with}

-- `incident.allowedActions` is exactly `["hold"]`
abbrev pub only_hold : List RecoveryAction → Bool
only_hold (hold ∷ []) = true
only_hold _ = false

-- `/^worktree HEAD ([0-9a-f]{40}) != worker result ([0-9a-f]{40})$/i`, with both groups in lower case.
unfoldable pub match_head_mismatch : String → Option (List ℕ × List ℕ)
unfolding lower_codes strip_prefix take_hex
match_head_mismatch summary =
    elim (strip_prefix (lower_codes "worktree head ") (lower_codes summary)) [
      | none ↦ none
      | some rest ↦ elim (take_hex 40 rest) [
        | none ↦ none
        | some (actual, more) ↦ elim (strip_prefix (lower_codes " != worker result ") more) [
          | none ↦ none
          | some tail ↦ elim (take_hex 40 tail) [
            | some (reported, []) ↦ some (actual, reported)
            | _ ↦ none
          ]
        ]
      ]
    ]

take : ℕ → List ℕ → List ℕ
take zero xs = []
take (suc n) [] = []
take (suc n) (x ∷ xs) = x ∷ take n xs

same_codes : List ℕ → List ℕ → Bool
same_codes [] [] = true
same_codes (x ∷ xs) (y ∷ ys) = x == y && same_codes xs ys
same_codes _ _ = false

unfoldable pub heads_disagree : List ℕ × List ℕ → String → Bool
unfolding take same_codes lower_codes
heads_disagree (actual, reported) head =
    not (same_codes actual reported)
    && same_codes (take 7 actual) (take 7 reported)
    && same_codes reported (lower_codes head)

-- The tests of `isLegacyWorkerHeadMismatch` on the Worker's result.
abbrev mismatched : String → Attempt → WorkerResult → Bool
mismatched job_id attempt r =
    r.status == WorkerStatus.completed
    && r.job_id == job_id
    && r.attempt_id == attempt.id
    && is_empty r.failed_commands
    && not (is_falsy r.head_sha)

unfoldable pub is_legacy_worker_head_mismatch : Job → Bool
is_legacy_worker_head_mismatch job = elim job.incident [
  | none ↦ false
  | some incident ↦ elim job.active_attempt [
    | none ↦ false
    | some attempt ↦ elim (work_of attempt) [
      | none ↦ false
      | some r ↦
          is_none job.approval
          && is_none job.pull_request
          && incident.block_class == integrity_violation
          && incident.lane == of_lane worker
          && only_hold incident.allowed_actions
          && attempt.lane == worker
          && attempt.phase == settled
          && incident.attempt_id == some attempt.id
          && attempt.base_sha == job.head_sha otherwise job.base_sha
          && mismatched job.id attempt r
          && elim (match_head_mismatch incident.summary) [
            | none ↦ false
            | some heads ↦ heads_disagree heads (r.head_sha otherwise "")
          ]
    ]
  ]
]

unfoldable pub is_controller_analyst_failure : AnalystAdvice → Bool
is_controller_analyst_failure advice = elim advice.unknowns [
  | u ∷ [] ↦
      advice.action == hold
      && advice.resolution_brief == ""
      && is_empty advice.evidence_refs
      && advice.summary == "Analyst diagnosis failed closed: " <> u
  | _ ↦ false
]

-- `retryActions.length === 1 ? retryActions[0] : null`
abbrev sole : List RecoveryAction → Option RecoveryAction
sole (a ∷ []) = some a
sole _ = none

-- The local constants of `reassessmentClassFor`, in its order.
module _ (job : Job) (incident : Incident) (analysis : AnalystAdvice) where
  retry_action : Option RecoveryAction
  unfolding filter
  retry_action = sole (filter is_retry_action incident.allowed_actions)

  exact_attempt : Bool
  exact_attempt =
      is_none job.approval
      && holds_of (λ a. of_lane a.lane == incident.lane) job.active_attempt
      && holds_of (λ a. some a.id == incident.attempt_id) job.active_attempt
      && holds_of (λ a. a.phase == settled) job.active_attempt

  held_infrastructure : Bool
  held_infrastructure =
      incident.block_class == infrastructure_exhausted
      && holds_of (λ a. is_none a.result) job.active_attempt

  -- A Reviewer's Attempt that never started, at the Job's HEAD.
  abbrev unstarted : Attempt → Bool
  unstarted a =
      a.lane == reviewer
      && is_none a.handle
      && is_none a.result
      && a.expected_head_sha == job.head_sha

  held_validation_infrastructure : Bool
  held_validation_infrastructure =
      incident.block_class == validation_infrastructure
      && incident.lane == of_lane reviewer
      && holds_of unstarted job.active_attempt

  abbrev gave_up : Attempt → Bool
  gave_up a =
      a.lane == reviewer
      && a.expected_head_sha == job.head_sha
      && holds_of
          (λ r.
            (r.status == ReviewerStatus.blocked || r.status == ReviewerStatus.failed)
            && r.reviewed_head_sha == job.head_sha)
          (review_of a)

  held_reviewer_block : Bool
  held_reviewer_block =
      incident.block_class == review_uncertain
      && incident.lane == of_lane reviewer
      && holds_of gave_up job.active_attempt

  held_reviewer_preflight : Bool
  held_reviewer_preflight =
      incident.block_class == reviewer_preflight_dirty
      && incident.lane == of_lane reviewer
      && holds_of unstarted job.active_attempt

  legacy_reviewer_preflight : Bool
  legacy_reviewer_preflight =
      incident.block_class == integrity_violation
      && incident.lane == of_lane reviewer
      && only_hold incident.allowed_actions
      && holds_of unstarted job.active_attempt
      && starts_with incident.summary "reviewer modified the worktree outside Harness result files:"

  held_ci_incident : Bool
  held_ci_incident =
      is_none job.approval
      && (incident.block_class == ci_failure || incident.block_class == ci_rework_exhausted)
      && incident.lane == controller
      && is_none incident.attempt_id
      && is_none job.active_attempt
      && elim job.pull_request [
        | none ↦ false
        | some pr ↦ elim job.ci_failure [
          | none ↦ false
          | some failure ↦
              failure.head_sha == pr.head_sha
              && job.head_sha == some pr.head_sha
              && ltb (job.ci_rework_count otherwise 0) max_ci_reworks
        ]
      ]

  held_ci_failure : Bool
  held_ci_failure = held_ci_incident && incident.block_class == ci_failure

  legacy_ci_exhausted : Bool
  legacy_ci_exhausted =
      held_ci_incident
      && incident.block_class == ci_rework_exhausted
      && only_hold incident.allowed_actions

  -- One of the three forms of evidence that old ledgers leave.
  legacy : Bool
  legacy = is_legacy_worker_head_mismatch job || legacy_reviewer_preflight || legacy_ci_exhausted

  effective_retry_action : Option RecoveryAction
  effective_retry_action =
      if is_legacy_worker_head_mismatch job
      then some retry_fresh_worker
      else if legacy_reviewer_preflight
      then some retry_fresh_reviewer
      else if legacy_ci_exhausted
      then some retry_fresh_worker
      else retry_action

  analyst_execution_failed : Bool
  analyst_execution_failed =
      analysis.evidence_digest == incident.evidence_digest && is_controller_analyst_failure analysis

  -- The four lines of the test that returns `null`, negated.
  reassessable : Bool
  reassessable =
      holds_of
        (λ action.
          (legacy || includes incident.allowed_actions action)
          && (legacy || includes (allowed_actions_for incident.block_class incident.lane) action))
        effective_retry_action
      && (exact_attempt || held_ci_incident)
      && (held_infrastructure || held_validation_infrastructure || held_reviewer_block
          || held_reviewer_preflight || legacy || analyst_execution_failed || held_ci_failure)

  replacement_class : BlockClass
  replacement_class =
      if is_legacy_worker_head_mismatch job
      then infrastructure_exhausted
      else if held_reviewer_block
      then infrastructure_exhausted
      else if legacy_reviewer_preflight
      then reviewer_preflight_dirty
      else if legacy_ci_exhausted
      then ci_failure
      else incident.block_class

  -- `reassessmentClassFor`, of a Job with an incident and an analysis.
  unfoldable pub reassessment_class_of : Option BlockClass
  unfolding retry_action exact_attempt held_infrastructure held_validation_infrastructure
      held_reviewer_block held_reviewer_preflight legacy_reviewer_preflight held_ci_incident
      held_ci_failure legacy_ci_exhausted legacy effective_retry_action analyst_execution_failed
      reassessable replacement_class
  reassessment_class_of =
      if job.state /= blocked
        || analysis.incident_id /= incident.id
        || analysis.action /= hold
        || not reassessable
      then none
      else some replacement_class

unfoldable pub reassessment_class_for : Job → Option BlockClass
unfolding reassessment_class_of
reassessment_class_for job = elim job.incident [
  | none ↦ none
  | some incident ↦ elim job.analysis [
    | none ↦ none
    | some analysis ↦ reassessment_class_of job incident analysis
  ]
]
