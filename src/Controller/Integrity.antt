-- ===== src/Controller/Integrity.antt =====
-- src/controller/attempt-integrity.ts, and `verifyBoundReviewerValidation` of
-- src/controller/reviewer-validation.ts: what is checked before a review is believed.
use herdr_harness_lite.Controller.Action.{◌>>=◌, Action, of_outcome, pure, perform, attempt}
use herdr_harness_lite.Controller.Ports.{
  Outcome, Deps, throw, ReviewerCheck, ReviewerVerification, ReviewerViolation, ok,
  reviewer_refused, reviewer_verified, worktree_dirty, head_mismatch,
}
use herdr_harness_lite.Model.Incident.{
  BlockClass, of_lane, reviewer_preflight_dirty, integrity_violation,
}
use herdr_harness_lite.Model.Job.{Job, WorktreeHandle, HarnessState}
use herdr_harness_lite.Model.Platform.{Platform}
use herdr_harness_lite.Base.{
  String, Option, List, find, if◌then◌else◌, ◌==◌, is_none, filter, ◌||◌, ◌otherwise◌, map, none,
  ◌++◌, [], some, ◌/=◌, ◌∷◌, string_eq,
}
use herdr_harness_lite.Model.Attempt.{
  Attempt, ReviewerValidationStatus, AttemptResult, settled, passed, failed_checks,
  infrastructure_error, attempt_phase_eq,
}
use herdr_harness_lite.Controller.Context.{block, TickResult, BlockInput}
use herdr_harness_lite.Model.Snapshot.{
  Lane, validation, reviewer, reviewer_checkpoint_stage_eq, lane_eq,
}
use herdr_harness_lite.Model.Diagnostic.{SafeRuntimeDiagnostic}
use herdr_harness_lite.Controller.Diagnostics.{git_diagnostic}
use herdr_harness_lite.Policy.{is_falsy}
use herdr_harness_lite.Base.Text.{◌<>◌}

-- The files of results that a lane may have written in the worktree.
abbrev pub allowed_paths : Platform → Job → WorktreeHandle → Attempt → List String
allowed_paths platform job w a =
    filter (platform.path_is_within w.path)
      (map (λ s. s.result_path) job.attempts ++ (a.result_path ∷ []))

-- A block of a lane with an Attempt's result.
abbrev pub by_lane :
    BlockClass → Lane → String → Option AttemptResult → Option SafeRuntimeDiagnostic → BlockInput
by_lane class lane summary result diagnostic = record {
  block_class = class;
  lane = of_lane lane;
  summary = summary;
  attempt_result = result;
  ci_failure = none;
  automatic_recovery = none;
  runtime_diagnostic = diagnostic;
}

abbrev lost_binding : String
lost_binding = "reviewer lane lost its expected worktree or implementation HEAD"

abbrev lost_validation : Outcome Attempt
lost_validation = throw "Reviewer validation lost its Attempt binding"

-- The tests of `reviewerOwnValidationInput`.
unfoldable pub own_validation_source : Job → Attempt → Outcome Attempt
own_validation_source job a =
    if is_none job.worktree
      || is_none a.execution_snapshot
      || is_falsy a.expected_head_sha
      || is_none a.reviewer_validation_argv
    then lost_validation
    else ok a

-- The Attempt whose validation `reviewerValidationInput` reads: that of a checkpoint that is used again,
-- or the Attempt's own.
unfoldable pub validation_source : Job → Attempt → Outcome Attempt
unfolding own_validation_source
validation_source job a =
    elim (find (λ b. b.stage == validation) (a.reviewer_checkpoint_inputs otherwise [])) [
      | none ↦ own_validation_source job a
      | some reused ↦ elim (find (λ c. c.id == reused.source_attempt_id) job.attempts) [
        | none ↦ throw "Reviewer validation checkpoint source Attempt is missing"
        | some source ↦
            if source.lane /= reviewer || source.phase /= settled
            then throw "Reviewer validation checkpoint source Attempt is missing"
            else own_validation_source job source
      ]
    ]

module _ {E : Type 0} (deps : Deps E) where
  -- A block whose input is made from a diagnostic, which is made first.
  abbrev pub block_with :
      HarnessState
      → Job
      → Outcome SafeRuntimeDiagnostic
      → (SafeRuntimeDiagnostic → BlockInput)
      → Action E TickResult
  block_with state job diagnostic input =
      of_outcome deps diagnostic >>= λ d. block deps state job (input d)

  -- The block of a check, as the check's answer.
  abbrev pub refuse_with :
      HarnessState
      → Job
      → Outcome SafeRuntimeDiagnostic
      → (SafeRuntimeDiagnostic → BlockInput)
      → Action E (Option TickResult)
  refuse_with state job diagnostic input =
      of_outcome deps diagnostic >>= λ d. block deps state job (input d) >>= λ r. pure (some r)

  unfoldable pub on_reviewer_verified :
      HarnessState
      → Job
      → Option AttemptResult
      → ReviewerVerification
      → Action E (Option TickResult)
  unfolding block
  on_reviewer_verified state job r reviewer_verified = pure none
  on_reviewer_verified state job r (reviewer_refused class kind reason) =
      refuse_with state job (git_diagnostic deps.platform)
        (λ d. by_lane class reviewer ("Reviewer boundary violation: " <> reason) r (some d))

  -- The check of Git that both checks of the Reviewer's worktree make.
  abbrev pub reviewer_check : Job → Attempt → WorktreeHandle → Option String → ReviewerCheck
  reviewer_check job a w reported = record {
    worktree = w;
    expected_head_sha = job.head_sha otherwise "";
    reported_head_sha = reported;
    allowed_result_paths = allowed_paths deps.platform job w a;
  }

  unfoldable pub refuse_binding :
      HarnessState → Job → Option AttemptResult → Action E (Option TickResult)
  unfolding block
  refuse_binding state job r =
      refuse_with state job (git_diagnostic deps.platform)
        (λ d. by_lane integrity_violation reviewer lost_binding r (some d))

  unfoldable pub verify_reviewer_integrity :
      HarnessState
      → Job
      → Attempt
      → Option String
      → Option AttemptResult
      → Action E (Option TickResult)
  unfolding refuse_binding on_reviewer_verified
  verify_reviewer_integrity state job a reported r = elim job.worktree [
    | none ↦ refuse_binding state job r
    | some w ↦
        if is_falsy job.head_sha
        then refuse_binding state job r
        else perform (deps.ports.verify_reviewer (reviewer_check job a w reported))
          >>= on_reviewer_verified state job r
  ]

  abbrev preflight_block :
      Attempt
      → Option AttemptResult
      → BlockClass
      → ReviewerViolation
      → String
      → SafeRuntimeDiagnostic
      → BlockInput
  preflight_block a r class worktree_dirty reason d =
      if is_none a.handle
      then by_lane reviewer_preflight_dirty reviewer
          ("Worktree residue existed before Reviewer start: " <> reason) r (some d)
      else by_lane class reviewer ("Reviewer boundary violation: " <> reason) r (some d)
  preflight_block a r class head_mismatch reason d =
      by_lane class reviewer ("Reviewer boundary violation: " <> reason) r (some d)

  unfoldable pub on_preflight_verified :
      HarnessState
      → Job
      → Attempt
      → Option AttemptResult
      → ReviewerVerification
      → Action E (Option TickResult)
  unfolding block
  on_preflight_verified state job a r reviewer_verified = pure none
  on_preflight_verified state job a r (reviewer_refused class kind reason) =
      refuse_with state job (git_diagnostic deps.platform) (preflight_block a r class kind reason)

  unfoldable pub verify_reviewer_preflight :
      HarnessState
      → Job
      → Attempt
      → Option String
      → Option AttemptResult
      → Action E (Option TickResult)
  unfolding refuse_binding on_preflight_verified
  verify_reviewer_preflight state job a reported r = elim job.worktree [
    | none ↦ refuse_binding state job r
    | some w ↦
        if is_falsy job.head_sha
        then refuse_binding state job r
        else perform (deps.ports.verify_reviewer (reviewer_check job a w reported))
          >>= on_preflight_verified state job a r
  ]

  unfoldable pub on_validation_verified :
      HarnessState → Job → Attempt → Outcome ReviewerValidationStatus → Action E (Option TickResult)
  unfolding block
  on_validation_verified state job a (ok passed) = pure none
  on_validation_verified state job a (ok failed_checks) = pure none
  on_validation_verified state job a (ok infrastructure_error) =
      block deps state job (
        by_lane integrity_violation reviewer
          ("Reviewer validation receipt cannot be verified: "
            <> "infrastructure-error receipt cannot authorize Reviewer start")
          a.result none)
      >>= λ r. pure (some r)
  on_validation_verified state job a (throw message) =
      block deps state job (
        by_lane integrity_violation reviewer
          ("Reviewer validation receipt cannot be verified: " <> message) a.result none)
      >>= λ r. pure (some r)

  unfoldable pub verify_bound_validation :
      HarnessState → Job → Attempt → Action E (Option TickResult)
  unfolding on_validation_verified validation_source block
  verify_bound_validation state job a = elim a.reviewer_validation_receipt [
    | none ↦
        block deps state job (
          by_lane integrity_violation reviewer
            "Reviewer started without a durable validation receipt" a.result none)
        >>= λ r. pure (some r)
    | some receipt ↦
        attempt (
          of_outcome deps (validation_source job a) >>= λ source.
          perform (deps.ports.verify_validation job source receipt))
        >>= on_validation_verified state job a
  ]
