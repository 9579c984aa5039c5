-- ===== src/Controller/Context.antt =====
-- src/controller/context.ts and helpers.ts: what every handler shares, `block`, `saveJob` and a tick's
-- result.
use herdr_harness_lite.Controller.Action.{◌>>=◌, ◌>>◌, Action, require, pure, save, now, next_id}
use herdr_harness_lite.Controller.Ports.{Deps}
use herdr_harness_lite.Model.Job.{
  PullRequestCheck, CheckBucket, Job, CiFailure, HarnessState, JobState, check_bucket_eq,
  evolve_job,
}
use herdr_harness_lite.Base.{
  ℕ, Option, Bool, List, ◌==◌, String, ◌∷◌, ◌||◌, none, some, ◌+◌, is_none, length, ◌otherwise◌,
  false, [], suc, if◌then◌else◌, zero, string_eq,
}
use herdr_harness_lite.Model.Incident.{
  BlockClass, IncidentLane, controller, AutomaticRecoveryCandidate,
}
use herdr_harness_lite.Model.Attempt.{AttemptResult, Attempt, settled}
use herdr_harness_lite.Base.Text.{join, ◌<>◌, show_number}
use herdr_harness_lite.Model.Diagnostic.{SafeRuntimeDiagnostic}
use herdr_harness_lite.Policy.{make_incident}
use herdr_harness_lite.Ledger.{assert_job_invariant}
use herdr_harness_lite.Model.Encode.{class_text}

pub data TickAction : Type 0 where
  idle preflight_failed selected_action claimed_action worktree_created attempt_reconciling
        attempt_completed :
      TickAction
  analysis_recorded automatic_recovery_backoff auto_recovery_authorized : TickAction
  waiting_for_approval recovery_applied ci_recovered base_refreshed published : TickAction
  publish_retry waiting_for_merge merged archived blocked_action : TickAction

pub record TickResult : Type 0 where
  pub success : Bool
  pub action : TickAction
  pub job_id : Option String
  pub message : String

abbrev pub result : Bool → TickAction → Job → String → TickResult
result success action job message = record {
  success = success;
  action = action;
  job_id = some job.id;
  message = message;
}

unfoldable pub is_failed_check : PullRequestCheck → Bool
is_failed_check c = c.bucket == CheckBucket.fail || c.bucket == CheckBucket.cancel

abbrev pub bucket_text : CheckBucket → String
bucket_text CheckBucket.pass = "pass"
bucket_text CheckBucket.fail = "fail"
bucket_text CheckBucket.pending = "pending"
bucket_text CheckBucket.skipping = "skipping"
bucket_text CheckBucket.cancel = "cancel"

check_lines : ℕ → List PullRequestCheck → List String
check_lines n [] = []
check_lines zero (c ∷ cs) =
    ("- ... " <> show_number (length (c ∷ cs)) <> " more failed checks") ∷ []
check_lines (suc n) (c ∷ cs) =
    ("- "
      <> c.name
      <> ": "
      <> c.state
      <> " ("
      <> bucket_text c.bucket
      <> ")"
      <> (if c.link == "" then "" else " " <> c.link))
    ∷ check_lines n cs

unfoldable pub summarize_ci_failure : ℕ → CiFailure → String
unfolding check_lines
summarize_ci_failure number failure = join "\n" (
    ("PR #" <> show_number number <> " required CI failed at " <> failure.head_sha <> ":")
    ∷ check_lines 8 failure.checks)

pub record BlockInput : Type 0 where
  pub block_class : BlockClass
  pub lane : IncidentLane
  pub summary : String
  pub attempt_result : Option AttemptResult
  pub ci_failure : Option CiFailure
  pub automatic_recovery : Option AutomaticRecoveryCandidate
  pub runtime_diagnostic : Option SafeRuntimeDiagnostic

-- A block by the Controller itself, with no Attempt's result and no more evidence.
abbrev pub by_controller : BlockClass → String → BlockInput
by_controller class summary = record {
  block_class = class;
  lane = controller;
  summary = summary;
  attempt_result = none;
  ci_failure = none;
  automatic_recovery = none;
  runtime_diagnostic = none;
}

-- The Attempt that a block settles.
abbrev settled_by : Option AttemptResult → String → Attempt → Attempt
settled_by result at a = record a { phase = settled; result = result; completed_at = some at }

-- The Job whose pull request is merged.
abbrev pub merged_job : Job → Job
merged_job j = record j { state = JobState.done; last_error = none }

module _ {E : Type 0} (deps : Deps E) where
  -- `assertJobInvariant(next)` and `store.save`
  unfoldable pub save_job : HarnessState → Job → Job → Action E (Unit {0})
  save_job state current next = do
    require (is_none (assert_job_invariant deps.platform next))
        (assert_job_invariant deps.platform next otherwise "")
    save deps (record state { active_job = some next }) (some current.revision)

  -- The Job that a block leaves.
  unfoldable pub blocked_job : Job → BlockInput → String → String → String → Job
  blocked_job job input at incident_at incident_id =
      let active : Option Attempt = elim job.active_attempt [
        | none ↦ none
        | some a ↦ some (settled_by input.attempt_result at a)
      ] in
      let incident =
        make_incident deps.platform
          (record {
            job_id = job.id;
            job_revision = job.revision + 1;
            lane = input.lane;
            attempt_id = elim active [ none ↦ none | some a ↦ some a.id ];
            block_class = input.block_class;
            summary = input.summary;
            automatic_recovery = input.automatic_recovery;
            runtime_diagnostic = input.runtime_diagnostic;
          })
          incident_at incident_id in
      evolve_job job at (λ j. record j {
        state = JobState.blocked;
        active_attempt = active;
        incident = some incident;
        analysis = none;
        approval = none;
        ci_failure = elim input.ci_failure [ none ↦ j.ci_failure | some f ↦ some f ];
        last_error = some input.summary;
      })

  unfoldable pub block : HarnessState → Job → BlockInput → Action E TickResult
  unfolding save_job
  block state job input = do
    at ← now deps
    incident_at ← now deps
    id ← next_id deps "incident"
    save_job state job (blocked_job job input at incident_at id)
    pure (result false blocked_action job (class_text input.block_class <> ": " <> input.summary))
