-- ===== src/Policy/Automatic.antt =====
-- src/policy.ts: the recovery that is authorized with no human decision.
use herdr_harness_lite.Model.Incident.{
  Incident, AutomaticRecoveryCandidate, RecoveryAction, Approval, AutomaticRecovery, ProviderScope,
  provider_transient, AnalystAdvice, same_head, pre_dispatch, retry_fresh_reviewer, policy_rule,
  retry_fresh_worker, recovery_action_eq, rule_of, infrastructure_exhausted,
  automatic_recovery_rule_eq, worker_pre_dispatch_infrastructure, of_lane, fingerprint_of,
  provider_pre_side_effect_transient, approval_basis_eq, reviewer_same_head_infrastructure,
  block_class_eq, incident_lane_eq,
}
use herdr_harness_lite.Model.Attempt.{Attempt, running, settled, attempt_phase_eq}
use herdr_harness_lite.Base.Int.{ℤ, pos, ltb_ℤ, ◌+ℤ◌}
use herdr_harness_lite.Model.Platform.{Platform}
use herdr_harness_lite.Model.Diagnostic.{
  runtime_side_effect_boundary_from, SafeRuntimeDiagnostic,
  is_pre_side_effect_transient_provider_code,
}
use herdr_harness_lite.Model.Job.{Job, blocked, job_state_eq}
use herdr_harness_lite.Base.{
  List, String, Bool, Option, ◌otherwise◌, if◌then◌else◌, ◌&&◌, ◌==◌, none, string_eq, false, some,
  not, [], is_some, ◌||◌, is_none, option_eq, true, ◌/=◌, some_of, includes, is_empty,
}
use herdr_harness_lite.Policy.Operator.{holds_of}
use herdr_harness_lite.Model.Digest.{digest, obj, field, str, end}
use herdr_harness_lite.Model.Snapshot.{
  Lane, pi_rpc, attempt_runtime_adapter_eq, worker, lane_eq, reviewer,
}
use herdr_harness_lite.Base.Text.{is_blank, is_hex}
use herdr_harness_lite.Model.Encode.{rule_text, nullable, lane_text}
use herdr_harness_lite.Policy.{is_falsy, allowed_actions_for}

abbrev pub provider_pre_side_effect_backoff_ms : ℤ
provider_pre_side_effect_backoff_ms = pos 5000

unfoldable pub pre_side_effect_provider_failure : Option SafeRuntimeDiagnostic → Bool
unfolding runtime_side_effect_boundary_from
pre_side_effect_provider_failure none = false
pre_side_effect_provider_failure (some diagnostic) =
    elim (runtime_side_effect_boundary_from diagnostic) [
      | none ↦ false
      | some b ↦
          not b.tool_execution_started
          && not b.durable_result_present
          && not b.worktree_changed
          && not b.commit_created
    ]

-- `attempt.executionSnapshot?.provider`, `null` and missing alike
abbrev pub provider_of : Attempt → Option String
provider_of attempt = elim attempt.execution_snapshot [ none ↦ none | some s ↦ s.provider ]

abbrev pub uses_pi_rpc : Attempt → Bool
uses_pi_rpc attempt = holds_of (λ s. s.adapter == pi_rpc) attempt.execution_snapshot

-- `attempt.expectedHeadSha ?? attempt.baseSha`
abbrev pub anchor_of : Attempt → String
anchor_of attempt = attempt.expected_head_sha otherwise attempt.base_sha

unfoldable pub provider_fingerprint : Platform → String → String → String → String → String
provider_fingerprint platform provider failure_code attempt_id head_sha = digest platform (
    obj (
      field "rule" (str (rule_text provider_pre_side_effect_transient)) (
        field "provider" (str provider) (
          field "failureCode" (str failure_code)
            (field "attemptId" (str attempt_id) (field "headSha" (str head_sha) end))))))

unfoldable pub scope_fingerprint : Platform → String → Lane → String → String
scope_fingerprint platform job_id lane head_sha = digest platform (
    obj (
      field "rule" (str (rule_text provider_pre_side_effect_transient)) (
        field "jobId" (str job_id)
          (field "lane" (str (lane_text lane)) (field "headSha" (str head_sha) end)))))

-- The part of `providerAutomaticRecoveryCandidate` after the Provider and the time are known.
provider_candidate_at :
    Platform
    → Job
    → Attempt
    → String
    → ℤ
    → SafeRuntimeDiagnostic
    → Option AutomaticRecoveryCandidate
unfolding provider_fingerprint scope_fingerprint
provider_candidate_at platform job attempt provider observed diagnostic =
    let head = anchor_of attempt in
    if not (uses_pi_rpc attempt)
      || provider == ""
      || not (is_hex 40 head)
      || not (is_pre_side_effect_transient_provider_code diagnostic.failure_code)
      || not (pre_side_effect_provider_failure (some diagnostic))
    then none
    else some (
        provider_transient
          (provider_fingerprint platform provider diagnostic.failure_code attempt.id head)
          (record {
            scope_fingerprint = scope_fingerprint platform job.id attempt.lane head;
            lane = attempt.lane;
            head_sha = head;
            provider = provider;
            failure_code = diagnostic.failure_code;
            not_before = platform.iso_string (observed +ℤ provider_pre_side_effect_backoff_ms);
          }))

unfoldable pub provider_automatic_recovery_candidate :
    Platform
    → Job
    → Attempt
    → Option SafeRuntimeDiagnostic
    → Option String
    → Option AutomaticRecoveryCandidate
unfolding provider_candidate_at
provider_automatic_recovery_candidate platform job attempt diagnostic observed_at =
    elim (provider_of attempt) [
      | none ↦ none
      | some provider ↦ elim observed_at [
        | none ↦ none
        | some at ↦ elim (platform.parse_date at) [
          | none ↦ none
          | some observed ↦ elim diagnostic [
            | none ↦ none
            | some d ↦
                if at == ""
                then none
                else provider_candidate_at platform job attempt provider observed d
          ]
        ]
      ]
    ]

-- The candidates that need no Provider, of an Attempt that was not dispatched.
unfoldable pub undispatched_candidate : Platform → Job → Attempt → Option AutomaticRecoveryCandidate
undispatched_candidate platform job attempt =
    if attempt.phase == running || attempt.phase == settled
    then none
    else if attempt.lane == worker
    then some (
        pre_dispatch (
          digest platform (
            obj (
              field "rule" (str (rule_text worker_pre_dispatch_infrastructure)) (
                field "baseSha" (str attempt.base_sha) (
                  field "expectedRemoteHeadSha" (nullable attempt.expected_remote_head_sha)
                    end))))))
    else elim job.head_sha [
      | none ↦ none
      | some head ↦
          if head == "" || attempt.expected_head_sha /= some head
          then none
          else some (
              same_head (
                digest platform (
                  obj (
                    field "rule" (str (rule_text reviewer_same_head_infrastructure))
                      (field "baseSha" (str attempt.base_sha) (field "headSha" (str head) end))))))
    ]

unfoldable pub automatic_recovery_candidate_for_attempt :
    Platform
    → Job
    → Attempt
    → Option SafeRuntimeDiagnostic
    → Option String
    → Option AutomaticRecoveryCandidate
automatic_recovery_candidate_for_attempt platform job attempt diagnostic observed_at =
    if is_some attempt.result
    then none
    else elim (provider_automatic_recovery_candidate platform job attempt diagnostic observed_at) [
      | some candidate ↦ some candidate
      | none ↦ undispatched_candidate platform job attempt
    ]

abbrev pub recoveries_of : Job → List AutomaticRecovery
recoveries_of job = job.automatic_recoveries otherwise []

-- The retry that a candidate asks for.
abbrev pub action_of : AutomaticRecoveryCandidate → RecoveryAction
action_of (same_head _) = retry_fresh_reviewer
action_of (pre_dispatch _) = retry_fresh_worker
action_of (provider_transient _ p) = elim p.lane [
  | worker ↦ retry_fresh_worker
  | reviewer ↦ retry_fresh_reviewer
]

-- What `advice` must say for a rule that is not the Provider's.
abbrev pub supports : Incident → RecoveryAction → AutomaticRecoveryCandidate → AnalystAdvice → Bool
supports incident action candidate advice =
    advice.incident_id == incident.id
    && advice.action == action
    && not (is_blank advice.resolution_brief)
    && (rule_of candidate /= worker_pre_dispatch_infrastructure || is_empty advice.unknowns)

-- `now` is a date that is not before `not_before`; a `not_before` that is no date compares as `false`.
unfoldable pub has_come : Platform → Option String → String → Bool
has_come platform now not_before = elim now [
  | none ↦ false
  | some text ↦ text /= "" && elim (platform.parse_date text) [
    | none ↦ false
    | some time ↦ elim (platform.parse_date not_before) [
      | none ↦ true
      | some limit ↦ not (ltb_ℤ time limit)
    ]
  ]
]

-- What the Provider rule demands.
unfoldable pub provider_ready :
    Platform → Job → Incident → Attempt → ProviderScope → Option String → Bool
unfolding has_come
provider_ready platform job incident attempt scope now =
    has_come platform now scope.not_before
    && attempt.lane == scope.lane
    && anchor_of attempt == scope.head_sha
    && provider_of attempt == some scope.provider
    && holds_of (λ d. d.failure_code == scope.failure_code) incident.runtime_diagnostic
    && is_pre_side_effect_transient_provider_code scope.failure_code
    && pre_side_effect_provider_failure incident.runtime_diagnostic
    && not (some_of (λ e. e.scope_fingerprint == some scope.scope_fingerprint) (recoveries_of job))

-- What each rule demands besides the tests that all share.
unfoldable pub rule_ready :
    Platform
    → Job
    → Incident
    → Attempt
    → Option AnalystAdvice
    → Option String
    → AutomaticRecoveryCandidate
    → Bool
unfolding provider_ready
rule_ready platform job incident attempt advice now (pre_dispatch f) =
    holds_of (supports incident retry_fresh_worker (pre_dispatch f)) advice
    && attempt.lane == worker
rule_ready platform job incident attempt advice now (same_head f) =
    holds_of (supports incident retry_fresh_reviewer (same_head f)) advice
    && attempt.lane == reviewer
    && not (is_falsy job.head_sha)
    && attempt.expected_head_sha == job.head_sha
rule_ready platform job incident attempt advice now (provider_transient f scope) =
    provider_ready platform job incident attempt scope now

pub record Authorized : Type 0 where
  pub candidate : AutomaticRecoveryCandidate
  pub action : RecoveryAction
  pub attempt_id : String

-- The tests that all rules share.
unfoldable pub shared_ready : Job → Incident → Attempt → AutomaticRecoveryCandidate → Bool
shared_ready job incident attempt candidate =
    job.state == blocked
    && is_none job.approval
    && incident.block_class == infrastructure_exhausted
    && incident.attempt_id == some attempt.id
    && incident.lane == of_lane attempt.lane
    && attempt.phase == settled
    && is_none attempt.result
    && includes incident.allowed_actions (action_of candidate)
    && includes (allowed_actions_for incident.block_class incident.lane) (action_of candidate)
    && not (
        some_of (λ e. e.approval.fingerprint == some (fingerprint_of candidate))
          (recoveries_of job))

unfoldable pub automatic_recovery_for :
    Platform → Job → Option AnalystAdvice → Option String → Option Authorized
automatic_recovery_for platform job advice now = elim job.incident [
  | none ↦ none
  | some incident ↦ elim incident.automatic_recovery [
    | none ↦ none
    | some candidate ↦ elim job.active_attempt [
      | none ↦ none
      | some attempt ↦
          if shared_ready job incident attempt candidate
            && rule_ready platform job incident attempt advice now candidate
          then some (record {
            candidate = candidate;
            action = action_of candidate;
            attempt_id = attempt.id;
          })
          else none
    ]
  ]
]

unfoldable pub automatic_recovery_backoff_pending :
    Platform → Job → Option AnalystAdvice → String → Bool
automatic_recovery_backoff_pending platform job advice now = elim job.incident [
  | none ↦ false
  | some incident ↦ elim incident.automatic_recovery [
    | some (provider_transient f scope) ↦ elim (platform.parse_date now) [
      | none ↦ false
      | some time ↦ elim (platform.parse_date scope.not_before) [
        | none ↦ false
        | some limit ↦
            ltb_ℤ time limit
            && is_some (automatic_recovery_for platform job advice (some scope.not_before))
      ]
    ]
    | _ ↦ false
  ]
]

-- The fields of the audit record that a candidate of the Provider rule fixes.
abbrev scope_matches : AutomaticRecoveryCandidate → AutomaticRecovery → Bool
scope_matches (provider_transient f scope) e =
    e.scope_fingerprint == some scope.scope_fingerprint
    && e.lane == some scope.lane
    && e.head_sha == some scope.head_sha
    && e.provider == some scope.provider
    && e.failure_code == some scope.failure_code
    && e.not_before == some scope.not_before
scope_matches _ e = true

abbrev pub audit_matches : Job → Approval → AutomaticRecoveryCandidate → AutomaticRecovery → Bool
audit_matches job approval candidate e =
    e.approval.id == approval.id
    && e.approval.incident_id == approval.incident_id
    && e.approval.analysis_id == approval.analysis_id
    && holds_of (λ a. e.attempt_id == a.id) job.active_attempt
    && e.approval.action == approval.action
    && e.approval.policy_rule_name == approval.policy_rule_name
    && e.approval.fingerprint == approval.fingerprint
    && scope_matches candidate e

unfoldable pub is_automatic_recovery_approval : Job → Approval → Bool
is_automatic_recovery_approval job approval = elim job.incident [
  | none ↦ false
  | some incident ↦ elim incident.automatic_recovery [
    | none ↦ false
    | some candidate ↦
        approval.basis == some policy_rule
        && approval.policy_rule_name == some (rule_of candidate)
        && approval.fingerprint == some (fingerprint_of candidate)
        && some_of (audit_matches job approval candidate) (recoveries_of job)
  ]
]
