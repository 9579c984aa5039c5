-- ===== src/Policy/Operator.antt =====
-- src/policy.ts: what an operator may decide about a blocked Job.
use herdr_harness_lite.Base.{
  Eq, String, ℕ, Bool, Option, none, ◌==◌, false, some, ◌&&◌, ◌||◌, some_of, leb, not, string_eq,
  is_empty, is_some, option_eq, includes,
}
use herdr_harness_lite.Model.Job.{Job}
use herdr_harness_lite.Model.Attempt.{
  ReviewerFinding, Attempt, ReviewerResult, WorkerResult, ReviewerStatus, settled, of_worker,
  of_reviewer, reviewer_status_eq, attempt_phase_eq,
}
use herdr_harness_lite.Model.Incident.{
  RecoveryAction, Incident, AnalystAdvice, hold, review_uncertain, of_lane, recovery_action_eq,
  retry_fresh_worker, block_class_eq, incident_lane_eq,
}
use herdr_harness_lite.Model.Platform.{Platform}
use herdr_harness_lite.Model.Encode.{nullable, action_text}
use herdr_harness_lite.Model.Digest.{Value, obj, field, str, digest, num, end}
use herdr_harness_lite.Model.Handoff.{major, critical, severity_eq}
use herdr_harness_lite.Model.Snapshot.{reviewer, lane_eq}
use herdr_harness_lite.Base.Text.{◌<>◌, take_text}
use herdr_harness_lite.Policy.{allowed_actions_for}

-- `option?.test`, where a missing value fails the test
abbrev pub holds_of {ℓ} : {A : Type ℓ} → (A → Bool) → Option A → Bool
holds_of test none = false
holds_of test (some a) = test a

-- The result of an Attempt, if it is a Reviewer's.
abbrev pub review_of : Attempt → Option ReviewerResult
review_of attempt = elim attempt.result [ some (of_reviewer r) ↦ some r | _ ↦ none ]

-- The result of an Attempt, if it is a Worker's.
abbrev pub work_of : Attempt → Option WorkerResult
work_of attempt = elim attempt.result [ some (of_worker r) ↦ some r | _ ↦ none ]

abbrev is_grave : ReviewerFinding → Bool
is_grave f = f.severity == major || f.severity == critical

-- The tests of `isDecisionResolutionEligible` on the Reviewer's result.
abbrev asks_changes : Option String → ReviewerResult → Bool
asks_changes head r =
    r.status == ReviewerStatus.changes && r.reviewed_head_sha == head && some_of is_grave r.findings

-- Those on the active Attempt.
abbrev exhausted_at : ℕ → Option String → Attempt → Bool
exhausted_at max head attempt =
    attempt.lane == reviewer
    && attempt.phase == settled
    && leb max attempt.round
    && attempt.expected_head_sha == head
    && holds_of (asks_changes head) (review_of attempt)

-- Those on the incident and the analysis together.
abbrev undecided : Incident → AnalystAdvice → Bool
undecided incident analysis =
    analysis.incident_id == incident.id
    && analysis.action == hold
    && analysis.resolution_brief == ""
    && not (is_empty analysis.unknowns)

unfoldable pub is_decision_resolution_eligible : Job → Bool
is_decision_resolution_eligible job = elim job.incident [
  | none ↦ false
  | some incident ↦
      incident.block_class == review_uncertain
      && incident.lane == of_lane reviewer
      && is_some incident.attempt_id
      && holds_of (λ a. incident.attempt_id == some a.id) job.active_attempt
      && includes incident.allowed_actions retry_fresh_worker
      && includes (allowed_actions_for incident.block_class incident.lane) retry_fresh_worker
      && holds_of (undecided incident) job.analysis
      && is_some job.head_sha
      && leb 1 job.max_review_rounds
      && holds_of (exhausted_at job.max_review_rounds job.head_sha) job.active_attempt
]

pub data ActionKind : Type 0 where
  approve_retry reassess resolve_decision cancel : ActionKind

unfoldable pub ActionKind-discrete : Discrete ActionKind
ActionKind-discrete = hlevel

instance abbrev pub action_kind_eq : Eq ActionKind
action_kind_eq = record { dec = ActionKind-discrete }

pub data Effect : Type 0 where
  retry : RecoveryAction → Effect
  rerun_analysis cancel_and_requeue : Effect

unfoldable pub Effect-discrete : Discrete Effect
Effect-discrete = hlevel

instance abbrev pub effect_eq : Eq Effect
effect_eq = record { dec = Effect-discrete }

pub record Binding : Type 0 where
  pub job_id : String
  pub revision : ℕ
  pub incident_id : String
  pub analysis_id : String
  pub attempt_id : Option String
  pub head_sha : Option String
  pub pull_request_head_sha : Option String

pub record OperatorAction : Type 0 where
  pub id : String
  pub kind : ActionKind
  pub effect : Effect
  pub binding : Binding

kind_text : ActionKind → String
kind_text approve_retry = "approve_retry"
kind_text reassess = "reassess"
kind_text resolve_decision = "resolve_decision"
kind_text ActionKind.cancel = "cancel"

effect_text : Effect → String
effect_text (retry action) = action_text action
effect_text rerun_analysis = "rerun_analysis"
effect_text cancel_and_requeue = "cancel_and_requeue"

action_value : ActionKind → Effect → Binding → Value
unfolding kind_text effect_text nullable
action_value kind effect b = obj (
    field "kind" (str (kind_text kind)) (
      field "effect" (str (effect_text effect)) (
        field "binding"
          (obj (
            field "jobId" (str b.job_id) (
              field "revision" (num b.revision) (
                field "incidentId" (str b.incident_id) (
                  field "analysisId" (str b.analysis_id) (
                    field "attemptId" (nullable b.attempt_id) (
                      field "headSha" (nullable b.head_sha)
                        (field "pullRequestHeadSha" (nullable b.pull_request_head_sha) end))))))))
          end)))

-- The incident and the analysis, whose presence the caller has tested, are arguments.
unfoldable pub make_operator_action :
    Platform → Job → Incident → AnalystAdvice → ActionKind → Effect → OperatorAction
unfolding action_value
make_operator_action platform job incident analysis kind effect =
    let binding : Binding = record {
      job_id = job.id;
      revision = job.revision;
      incident_id = incident.id;
      analysis_id = analysis.id;
      attempt_id = elim job.active_attempt [ none ↦ none | some a ↦ some a.id ];
      head_sha = job.head_sha;
      pull_request_head_sha = elim job.pull_request [ none ↦ none | some p ↦ some p.head_sha ];
    } in
    record {
      id = "decision-" <> take_text 16 (digest platform (action_value kind effect binding));
      kind = kind;
      effect = effect;
      binding = binding;
    }
