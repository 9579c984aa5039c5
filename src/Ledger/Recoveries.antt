-- ===== src/Ledger/Recoveries.antt =====
-- src/model.ts: the assertions on candidates, approvals and the history of automatic recoveries.
use herdr_harness_lite.Model.Incident.{
  Approval, AutomaticRecovery, Incident, provider_pre_side_effect_transient, policy_rule,
  AutomaticRecoveryCandidate, approval_basis_eq, automatic_recovery_rule_eq, retry_fresh_worker,
  is_retry_action, pre_dispatch, retry_fresh_reviewer, worker_pre_dispatch_infrastructure,
  same_head, provider_transient, reviewer_same_head_infrastructure, recovery_action_eq, of_lane,
  incident_lane_eq,
}
use herdr_harness_lite.Base.{
  List, String, Bool, ◌otherwise◌, leb, some, some_of, none, ◌==◌, length, ◌&&◌, false, not,
  is_some, string_eq, option_eq, map, true, filter, every,
}
use herdr_harness_lite.Model.Platform.{Platform}
use herdr_harness_lite.Model.Job.{Job}
use herdr_harness_lite.Base.Text.{is_bounded_text, is_hex}
use herdr_harness_lite.Model.Snapshot.{worker, reviewer}
use herdr_harness_lite.Ledger.Parts.{has_duplicate}
use herdr_harness_lite.Model.Diagnostic.{is_pre_side_effect_transient_provider_code}
use herdr_harness_lite.Base.Int.{ltb_ℤ}
use herdr_harness_lite.Policy.Automatic.{provider_fingerprint, scope_fingerprint}

unfoldable pub is_candidate : Platform → Job → Incident → AutomaticRecoveryCandidate → Bool
is_candidate platform job i (pre_dispatch f) = is_hex 64 f
is_candidate platform job i (same_head f) = is_hex 64 f
is_candidate platform job i (provider_transient f p) =
    is_hex 64 f
    && is_some i.attempt_id
    && of_lane p.lane == i.lane
    && is_hex 40 p.head_sha
    && is_bounded_text p.provider 512
    && is_pre_side_effect_transient_provider_code p.failure_code
    && is_hex 64 p.scope_fingerprint
    && is_some (platform.parse_date p.not_before)
    && f
      == provider_fingerprint platform p.provider p.failure_code (i.attempt_id otherwise "")
          p.head_sha
    && p.scope_fingerprint == scope_fingerprint platform job.id p.lane p.head_sha

unfoldable pub has_analysis_binding : Approval → Bool
has_analysis_binding a = elim a.analysis_id [
  | some id ↦ is_bounded_text id 512
  | none ↦
      a.basis == some policy_rule && a.policy_rule_name == some provider_pre_side_effect_transient
]

unfoldable pub is_auditable : Platform → Approval → Bool
is_auditable platform a =
    is_bounded_text a.actor 512
    && is_bounded_text a.reason 2000
    && is_some (platform.parse_date a.created_at)

-- What an entry of the Provider rule must record.
abbrev provider_entry : Platform → String → AutomaticRecovery → Bool
provider_entry platform job_id e =
    let head = e.head_sha otherwise "" in
    let provider = e.provider otherwise "" in
    let code = e.failure_code otherwise "" in
    let after = e.not_before otherwise "" in
    elim e.lane [
      | none ↦ false
      | some lane ↦
          e.approval.action
            == elim lane [ worker ↦ retry_fresh_worker | reviewer ↦ retry_fresh_reviewer ]
          && is_hex 64 (e.scope_fingerprint otherwise "")
          && is_hex 40 head
          && is_bounded_text provider 512
          && is_pre_side_effect_transient_provider_code code
          && elim (platform.parse_date after) [
            | none ↦ false
            | some limit ↦ elim (platform.parse_date e.approval.created_at) [
              | none ↦ true
              | some time ↦ not (ltb_ℤ time limit)
            ]
          ]
          && e.approval.fingerprint
            == some (provider_fingerprint platform provider code e.attempt_id head)
          && e.scope_fingerprint == some (scope_fingerprint platform job_id lane head)
    ]

-- The tests that depend on the rule.
abbrev rule_entry : Platform → String → AutomaticRecovery → Bool
rule_entry platform job_id e = elim e.approval.policy_rule_name [
  | none ↦ false
  | some worker_pre_dispatch_infrastructure ↦
      e.approval.action == retry_fresh_worker && is_some e.approval.analysis_id
  | some reviewer_same_head_infrastructure ↦
      e.approval.action == retry_fresh_reviewer && is_some e.approval.analysis_id
  | some provider_pre_side_effect_transient ↦ provider_entry platform job_id e
]

is_recovery_entry : Platform → String → AutomaticRecovery → Bool
is_recovery_entry platform job_id e =
    e.approval.basis == some policy_rule
    && is_retry_action e.approval.action
    && rule_entry platform job_id e
    && is_hex 64 (e.approval.fingerprint otherwise "")
    && is_bounded_text e.approval.id 512
    && is_bounded_text e.approval.incident_id 512
    && elim e.approval.analysis_id [ none ↦ true | some id ↦ is_bounded_text id 512 ]
    && is_bounded_text e.attempt_id 512
    && is_bounded_text e.approval.actor 512
    && is_bounded_text e.approval.reason 2000
    && is_some (platform.parse_date e.approval.created_at)
    && elim e.approval.consumed_at [ none ↦ true | some at ↦ is_some (platform.parse_date at) ]

abbrev is_provider_entry : AutomaticRecovery → Bool
is_provider_entry e = e.approval.policy_rule_name == some provider_pre_side_effect_transient

unfoldable pub is_recovery_history : Platform → String → List AutomaticRecovery → Bool
unfolding is_recovery_entry
is_recovery_history platform job_id es =
    leb (length es) 32
    && not (has_duplicate string_eq (map (λ e. e.approval.id) es))
    && not (has_duplicate option_eq (map (λ e. e.approval.fingerprint) es))
    && not (has_duplicate option_eq (map (λ e. e.scope_fingerprint) (filter is_provider_entry es)))
    && every (is_recovery_entry platform job_id) es

-- `automaticRecoveries.some` in the test on a policy approval.
unfoldable pub is_recorded : List AutomaticRecovery → Approval → Bool
is_recorded es a =
    some_of
      (λ e.
        e.approval.id == a.id
        && e.approval.policy_rule_name == a.policy_rule_name
        && e.approval.fingerprint == a.fingerprint)
      es
