-- ===== src/Controller/Boundary.antt =====
-- src/controller/automatic-recovery.ts: the authorization of a recovery with no human decision, and the
-- check that a retry for a Provider still stands before any side effect.
use herdr_harness_lite.Controller.Action.{
  ◌>>=◌, ◌>>◌, Action, require, pure, attempt, perform, next_id,
}
use herdr_harness_lite.Model.Diagnostic.{runtime_side_effect_boundary_from, SafeRuntimeDiagnostic}
use herdr_harness_lite.Model.Incident.{
  AutomaticRecoveryCandidate, Approval, Incident, ProviderScope, AnalystAdvice, pre_dispatch,
  AutomaticRecovery, same_head, integrity_violation, policy_rule, controller, provider_transient,
  of_lane, rule_of, provider_pre_side_effect_transient, approval_basis_eq, fingerprint_of,
  automatic_recovery_rule_eq, incident_lane_eq,
}
use herdr_harness_lite.Controller.Ports.{
  Deps, Outcome, SideEffectCheck, ok, AttemptSideEffectInspection, throw,
}
use herdr_harness_lite.Model.Job.{Job, HarnessState, WorktreeHandle, recovery_approved, evolve_job}
use herdr_harness_lite.Base.{
  Option, String, Bool, none, ◌==◌, false, some, not, if◌then◌else◌, ◌&&◌, map, ◌++◌, is_none, ◌∷◌,
  option_eq, true, ◌/=◌, string_eq, [],
}
use herdr_harness_lite.Controller.Context.{
  block, save_job, BlockInput, TickResult, result, recovery_applied, auto_recovery_authorized,
}
use herdr_harness_lite.Policy.Automatic.{Authorized, anchor_of, recoveries_of, provider_of}
use herdr_harness_lite.Model.Attempt.{Attempt}
use herdr_harness_lite.Base.Text.{◌<>◌}
use herdr_harness_lite.Model.Encode.{rule_text, action_text}
use herdr_harness_lite.Controller.Integrity.{by_lane}
use herdr_harness_lite.Model.Snapshot.{lane_eq}

abbrev scope_of : AutomaticRecoveryCandidate → Option ProviderScope
scope_of (pre_dispatch f) = none
scope_of (same_head f) = none
scope_of (provider_transient f scope) = some scope

-- The approval that an authorized recovery records.
unfoldable pub policy_approval :
    Job → Incident → Option AnalystAdvice → Authorized → String → String → Approval
policy_approval job incident advice automatic id at = record {
  id = id;
  job_revision = job.revision;
  incident_id = incident.id;
  analysis_id = elim advice [ none ↦ none | some a ↦ some a.id ];
  action = automatic.action;
  basis = some policy_rule;
  policy_rule_name = some (rule_of automatic.candidate);
  fingerprint = some (fingerprint_of automatic.candidate);
  actor = "harness:auto-recovery";
  reason = rule_text (rule_of automatic.candidate);
  created_at = at;
  consumed_at = none;
}

-- The entry of `automaticRecoveries`: the approval with the Attempt, and the scope of a Provider.
unfoldable pub recovery_entry : Approval → Authorized → AutomaticRecovery
recovery_entry approval automatic =
    let scope = scope_of automatic.candidate in
    record {
      approval = approval;
      attempt_id = automatic.attempt_id;
      scope_fingerprint = elim scope [ none ↦ none | some p ↦ some p.scope_fingerprint ];
      lane = elim scope [ none ↦ none | some p ↦ some p.lane ];
      head_sha = elim scope [ none ↦ none | some p ↦ some p.head_sha ];
      provider = elim scope [ none ↦ none | some p ↦ some p.provider ];
      failure_code = elim scope [ none ↦ none | some p ↦ some p.failure_code ];
      not_before = elim scope [ none ↦ none | some p ↦ some p.not_before ];
    }

abbrev pub recovery_granted : Option AnalystAdvice → Approval → AutomaticRecovery → Job → Job
recovery_granted advice approval entry j = record j {
  state = recovery_approved;
  analysis = advice;
  approval = some approval;
  automatic_recoveries = some (recoveries_of j ++ (entry ∷ []));
}

-- `job.approval` is that of the Provider's rule.
abbrev pub is_provider_approval : Job → Bool
is_provider_approval job = elim job.approval [
  | none ↦ false
  | some a ↦
      a.basis == some policy_rule && a.policy_rule_name == some provider_pre_side_effect_transient
]

-- The diagnostic reports a boundary, and nothing that crosses it.
abbrev is_clear : Option SafeRuntimeDiagnostic → Bool
is_clear none = false
is_clear (some d) = elim (runtime_side_effect_boundary_from d) [
  | none ↦ false
  | some b ↦
      not b.tool_execution_started
      && not b.durable_result_present
      && not b.worktree_changed
      && not b.commit_created
]

-- The tests of the boundary but that of the result's file.
unfoldable pub boundary_stands : Incident → Attempt → ProviderScope → Bool
unfolding runtime_side_effect_boundary_from
boundary_stands incident a scope =
    incident.attempt_id == some a.id
    && incident.lane == of_lane a.lane
    && scope.lane == a.lane
    && scope.head_sha == anchor_of a
    && provider_of a == some scope.provider
    && elim incident.runtime_diagnostic [
      | none ↦ false
      | some d ↦ d.failure_code == scope.failure_code
    ]
    && is_clear incident.runtime_diagnostic

-- The Attempt and the worktree of a Provider's retry whose boundary stands.
unfoldable pub boundary_of : Job → Option (Attempt × WorktreeHandle)
unfolding boundary_stands
boundary_of job = elim job.incident [
  | none ↦ none
  | some incident ↦ elim incident.automatic_recovery [
    | none ↦ none
    | some candidate ↦ elim (scope_of candidate) [
      | none ↦ none
      | some scope ↦ elim job.active_attempt [
        | none ↦ none
        | some a ↦ elim job.worktree [
          | none ↦ none
          | some w ↦ if boundary_stands incident a scope then some (a, w) else none
        ]
      ]
    ]
  ]
]

module _ {E : Type 0} (deps : Deps E) where
  unfoldable pub grant_automatic :
      HarnessState
      → Job
      → Incident
      → Option AnalystAdvice
      → Authorized
      → String
      → String
      → Action E TickResult
  unfolding save_job policy_approval recovery_entry
  grant_automatic state job incident advice automatic at id =
      let approval = policy_approval job incident advice automatic id at in
      save_job deps state job
        (evolve_job job at (recovery_granted advice approval (recovery_entry approval automatic)))
      >> pure (
          result true auto_recovery_authorized job (
            rule_text (rule_of automatic.candidate)
            <> " authorized one fresh "
            <> action_text automatic.action))

  unfoldable pub authorize_automatic_recovery :
      HarnessState
      → Job
      → Incident
      → Option AnalystAdvice
      → Authorized
      → String
      → Action E TickResult
  unfolding grant_automatic
  authorize_automatic_recovery state job incident advice automatic at =
      require
        (not (is_none advice && rule_of automatic.candidate /= provider_pre_side_effect_transient))
        "only deterministic pre-side-effect Provider recovery may omit Analyst advice"
      >> (next_id deps "approval" >>= grant_automatic state job incident advice automatic at)

  -- `existsSync(path)`
  unfoldable pub exists : String → Action E Bool
  exists path s = (ok (deps.ports.file_exists path s.env), s)

  abbrev pub crossed : Job → String → BlockInput
  crossed job summary = record {
    block_class = integrity_violation;
    lane = elim job.active_attempt [ none ↦ controller | some a ↦ of_lane a.lane ];
    summary = summary;
    attempt_result = elim job.active_attempt [ none ↦ none | some a ↦ a.result ];
    ci_failure = none;
    automatic_recovery = none;
    runtime_diagnostic = none;
  }

  -- A block as the answer of a check.
  abbrev pub refuse : HarnessState → Job → BlockInput → Action E (Option TickResult)
  refuse state job input = block deps state job input >>= λ r. pure (some r)

  unfoldable pub on_inspected :
      HarnessState
      → Job
      → Attempt
      → Outcome AttemptSideEffectInspection
      → Action E (Option TickResult)
  unfolding block
  on_inspected state job a (throw message) = pure (
      some (
        result false recovery_applied job
          ("automatic Provider retry Git check is retryable: " <> message)))
  on_inspected state job a (ok o) =
      if not o.worktree_changed && not o.commit_created
      then pure none
      else refuse state job (
          by_lane integrity_violation a.lane
            "automatic Provider retry found worktree or commit side effects after the runtime receipt"
            a.result none)

  abbrev pub boundary_check : Job → Attempt → WorktreeHandle → SideEffectCheck
  boundary_check job a w = record {
    worktree = w;
    expected_head_sha = anchor_of a;
    allowed_result_paths = map (λ x. x.result_path) job.attempts ++ (a.result_path ∷ []);
  }

  abbrev pub crossed_boundary : HarnessState → Job → Action E (Option TickResult)
  crossed_boundary state job =
      refuse state job
        (crossed job "automatic Provider retry crossed or lost its pre-side-effect boundary")

  unfoldable pub check_boundary :
      HarnessState → Job → Attempt → WorktreeHandle → Bool → Action E (Option TickResult)
  unfolding block on_inspected
  check_boundary state job a w is_there =
      if is_there
      then crossed_boundary state job
      else attempt (perform (deps.ports.inspect_side_effects (boundary_check job a w)))
        >>= on_inspected state job a

  unfoldable pub verify_provider_boundary : HarnessState → Job → Action E (Option TickResult)
  unfolding block check_boundary boundary_of exists
  verify_provider_boundary state job =
      if not (is_provider_approval job) then pure none else elim (boundary_of job) [
        | none ↦ crossed_boundary state job
        | some (a, w) ↦ exists a.result_path >>= check_boundary state job a w
      ]
