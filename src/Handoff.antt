-- ===== src/Handoff.antt =====
-- src/handoff.ts: the typed handoff that one Attempt leaves to the next.
pub mod Bound
use Prim.Native.Nat.{◌/◌}
use herdr_harness_lite.Model.Attempt.{ReviewerFinding, Attempt, ReviewerResult, of_reviewer}
use herdr_harness_lite.Model.Platform.{Platform}
use herdr_harness_lite.Base.{
  Option, List, ℕ, String, ◌-◌, none, ◌∷◌, if◌then◌else◌, [], some, filter, ◌/=◌, leb, ◌otherwise◌,
  ◌==◌, string_eq, not, Eq, ◌&&◌, ◌+◌, map, ◌||◌, is_none, option_eq, nat_eq, ◌++◌,
}
use herdr_harness_lite.Model.Job.{Job, PullRequestCheck}
use herdr_harness_lite.Model.Incident.{
  RecoveryAction, AnalystAdvice, Incident, Approval, policy_rule, human_decision, ci_failure,
  retry_fresh_reviewer, analyst_advice, approval_basis_eq, ApprovalBasis, BlockClass,
  block_class_eq,
}
use herdr_harness_lite.Model.Snapshot.{Lane, reviewer, worker, lane_eq}
use herdr_harness_lite.Model.Handoff.{
  HandoffObligation, TypedHandoff, HandoffBody, review_changes, ci_rework, HandoffKind,
}
use herdr_harness_lite.Ledger.Handoffs.{handoff_id, pull_request_head, target_of}
use herdr_harness_lite.Base.Text.{◌<>◌, text_length, take_units, is_blank, last_units}
use herdr_harness_lite.Policy.Operator.{holds_of, review_of}
use herdr_harness_lite.Model.Digest.{digest}
use herdr_harness_lite.Model.Encode.{result_value}

abbrev pub max_handoff_obligation_summary : ℕ
max_handoff_obligation_summary = 10000

abbrev pub handoff_truncation_marker : String
handoff_truncation_marker = "\n...[truncated for typed handoff]...\n"

unfoldable pub bound_handoff_text : String → ℕ → String
bound_handoff_text value max =
    let available = max - text_length handoff_truncation_marker in
    if leb (text_length value) max
    then value
    else take_units ((available + 1) / 2) value
      <> handoff_truncation_marker
      <> last_units (available / 2) value

-- `identify`
unfoldable pub identify : Platform → HandoffBody → TypedHandoff
identify platform body = record { id = handoff_id platform body; body = body }

abbrev of_finding : ReviewerFinding → HandoffObligation
of_finding f = record {
  severity = some f.severity;
  summary = f.summary;
  evidence = some f.evidence;
}

abbrev plain : String → HandoffObligation
plain summary = record { severity = none; summary = summary; evidence = none }

-- The handoff of a review with changes; `head` is the Job's HEAD, which the caller has tested.
unfoldable pub review_changes_handoff :
    Platform → Job → String → Attempt → ReviewerResult → String → TypedHandoff
review_changes_handoff platform job head attempt result created_at = identify platform (record {
  version = 1;
  kind = review_changes;
  source = record {
    job_revision = job.revision;
    task_digest = job.task.digest;
    attempt_id = some attempt.id;
    result_digest = some (digest platform (result_value (of_reviewer result)));
    incident_id = none;
    evidence_digest = none;
    analysis_id = none;
    approval_id = none;
    head_sha = result.reviewed_head_sha;
  };
  target = record {
    lane = worker;
    base_sha = head;
    expected_head_sha = none;
    expected_remote_head_sha = pull_request_head job;
  };
  summary = result.summary;
  obligations = map of_finding result.findings;
  evidence_refs = [];
  unknowns = [];
  created_at = created_at;
})

-- The obligations that come from the human's decision or from the Analyst's advice.
abbrev decided : Job → Option AnalystAdvice → Approval → List HandoffObligation
decided job analysis approval =
    if approval.basis == some human_decision
    then plain approval.reason ∷ elim job.active_attempt [
      | none ↦ []
      | some a ↦ elim (review_of a) [ none ↦ [] | some r ↦ map of_finding r.findings ]
    ]
    else elim analysis [
      | none ↦ []
      | some advice ↦
          if is_blank advice.resolution_brief then [] else plain advice.resolution_brief ∷ []
    ]

abbrev of_check : PullRequestCheck → HandoffObligation
of_check c = record {
  severity = none;
  summary =
      bound_handoff_text (c.name <> ": " <> (c.diagnostic otherwise c.state))
        max_handoff_obligation_summary;
  evidence = if c.link == "" then none else some c.link;
}

abbrev failed_checks_of : Job → List PullRequestCheck
failed_checks_of job = elim job.ci_failure [ none ↦ [] | some f ↦ f.checks ]

-- `[...new Set(texts)]`
unfoldable pub distinct : List String → List String
distinct [] = []
distinct (t ∷ ts) = t ∷ filter (λ u. u /= t) (distinct ts)

-- The lane of the fresh Attempt that an approved action asks for.
abbrev pub retried_lane : RecoveryAction → Lane
retried_lane retry_fresh_reviewer = reviewer
retried_lane _ = worker

-- Without advice only the policy's reason is left; the caller admits no other approval without advice.
abbrev recovery_summary : Option AnalystAdvice → Approval → String
recovery_summary analysis approval =
    if approval.basis == some policy_rule && is_none analysis
    then approval.reason
    else if approval.basis == some human_decision
    then approval.reason
    else elim analysis [ none ↦ "" | some advice ↦ advice.summary ]

unfoldable pub approved_recovery_handoff :
    Platform → Job → Incident → Option AnalystAdvice → Approval → String → TypedHandoff
unfolding distinct
approved_recovery_handoff platform job incident analysis approval created_at =
    let is_ci = incident.block_class == ci_failure in
    let operator =
      if approval.basis == some analyst_advice
      then plain (
          bound_handoff_text ("Operator statement (untrusted): " <> approval.reason)
            max_handoff_obligation_summary)
        ∷ []
      else [] in
    let links =
      if is_ci then filter (λ l. l /= "") (map (λ c. c.link) (failed_checks_of job)) else [] in
    identify platform (record {
      version = 1;
      kind = if is_ci then ci_rework else HandoffKind.approved_recovery;
      source = record {
        job_revision = job.revision;
        task_digest = job.task.digest;
        attempt_id = elim job.active_attempt [ none ↦ none | some a ↦ some a.id ];
        result_digest = elim job.active_attempt [
          | none ↦ none
          | some a ↦ elim a.result [
            | none ↦ none
            | some r ↦ some (digest platform (result_value r))
          ]
        ];
        incident_id = some incident.id;
        evidence_digest = some incident.evidence_digest;
        analysis_id = approval.analysis_id;
        approval_id = some approval.id;
        head_sha = job.head_sha;
      };
      target = record {
        lane = retried_lane approval.action;
        base_sha =
            if retried_lane approval.action == worker
            then job.head_sha otherwise job.base_sha
            else job.base_sha;
        expected_head_sha = if retried_lane approval.action == reviewer then job.head_sha else none;
        expected_remote_head_sha =
            if retried_lane approval.action == worker then pull_request_head job else none;
      };
      summary = recovery_summary analysis approval;
      obligations =
          decided job analysis approval
          ++ (operator ++ (if is_ci then map of_check (failed_checks_of job) else []));
      evidence_refs =
          distinct (elim analysis [ none ↦ [] | some advice ↦ advice.evidence_refs ] ++ links);
      unknowns = elim analysis [ none ↦ [] | some advice ↦ advice.unknowns ];
      created_at = created_at;
    })

pub data BindResult : Type 0 where
  bound : Option TypedHandoff → BindResult
  rejected : String → BindResult

unfoldable pub bind_pending_handoff : Job → Attempt → BindResult
bind_pending_handoff job attempt =
    if holds_of (λ b. not (is_blank b)) job.pending_brief
    then rejected "legacy pendingBrief cannot be promoted into a new Attempt"
    else elim job.pending_handoff [
      | none ↦ bound none
      | some h ↦
          let target = h.body.target in
          if h.body.version /= 1
            || h.body.source.job_revision + 1 /= job.revision
            || h.body.source.task_digest /= job.task.digest
            || target.lane /= attempt.lane
            || target.base_sha /= attempt.base_sha
            || target.expected_head_sha /= attempt.expected_head_sha
            || target.expected_remote_head_sha /= attempt.expected_remote_head_sha
          then rejected "pending handoff is stale or targets a different Attempt"
          else bound (some h)
    ]
