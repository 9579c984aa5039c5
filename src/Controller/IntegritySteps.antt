-- ===== src/Controller/IntegritySteps.antt =====
-- src/controller/attempt-integrity.ts and reviewer-validation.ts: the checks before a review is believed
-- save nothing but a block.
use herdr_harness_lite.Controller.Action.{◌>>=◌, Action, of_outcome, attempt, perform, pure}
use herdr_harness_lite.Controller.Ports.{
  Deps, Outcome, ok, ReviewerVerification, reviewer_refused, throw, reviewer_verified,
}
use herdr_harness_lite.Model.Job.{HarnessState, Job, blocked, job_state_eq, WorktreeHandle}
use herdr_harness_lite.Base.{◌≡◌, Option, String, inl, false, none, refl, some, if◌then◌else◌}
use herdr_harness_lite.Controller.Integrity.{
  on_reviewer_verified, verify_bound_validation, on_preflight_verified, verify_reviewer_integrity,
  on_validation_verified, refuse_binding, verify_reviewer_preflight, refuse_with, block_with,
  validation_source, reviewer_check,
}
use herdr_harness_lite.Model.Attempt.{
  Attempt, ReviewerValidationStatus, ReviewerValidationReceiptBinding, AttemptResult, passed,
  failed_checks, infrastructure_error,
}
use herdr_harness_lite.Model.Diagnostic.{SafeRuntimeDiagnostic}
use herdr_harness_lite.Controller.Steps.{
  Checks, option-Runs, goes_on, Steps, bind-Runs, bind-Quiet, if-Runs, May,
}
use herdr_harness_lite.Controller.Saves.{blocked-Checks, block-Steps}
use herdr_harness_lite.Controller.Context.{BlockInput, TickResult, block}
use herdr_harness_lite.Policy.{is_falsy}

module _ {E : Type 0} (deps : Deps E) (state : HarnessState) (job : Job) (Wanted : Job → Type 0)
    (may_block : May Wanted blocked) where
  pub block_with-Steps :
      (d : Outcome SafeRuntimeDiagnostic) (input : SafeRuntimeDiagnostic → BlockInput)
      → Steps deps state job Wanted (block_with deps state job d input)
  block_with-Steps d input =
      bind-Runs deps state job Wanted (λ r. Unit) (of_outcome deps d)
        (λ x. block deps state job (input x)) (λ s. refl)
        (λ x. block-Steps deps state job Wanted (input x) may_block)

  refuse_with-Checks :
      (d : Outcome SafeRuntimeDiagnostic) (input : SafeRuntimeDiagnostic → BlockInput)
      → Checks deps state job Wanted (refuse_with deps state job d input)
  refuse_with-Checks d input =
      bind-Runs deps state job Wanted (λ r. goes_on r ≡ false) (of_outcome deps d)
        (λ x. block deps state job (input x) >>= λ r. pure (some r)) (λ s. refl)
        (λ x. blocked-Checks deps state job Wanted (input x) may_block)

  on_reviewer_verified-Checks :
      (r : Option AttemptResult) (v : ReviewerVerification)
      → Checks deps state job Wanted (on_reviewer_verified deps state job r v)
  unfolding on_reviewer_verified
  on_reviewer_verified-Checks r reviewer_verified = λ s. inl refl
  on_reviewer_verified-Checks r (reviewer_refused class kind reason) = refuse_with-Checks _ _

  on_preflight_verified-Checks :
      (a : Attempt) (r : Option AttemptResult) (v : ReviewerVerification)
      → Checks deps state job Wanted (on_preflight_verified deps state job a r v)
  unfolding on_preflight_verified
  on_preflight_verified-Checks a r reviewer_verified = λ s. inl refl
  on_preflight_verified-Checks a r (reviewer_refused class kind reason) = refuse_with-Checks _ _

  refuse_binding-Checks :
      (r : Option AttemptResult) → Checks deps state job Wanted (refuse_binding deps state job r)
  unfolding refuse_binding
  refuse_binding-Checks r = refuse_with-Checks _ _

  -- A check of Git once the Job is known to have a worktree and a HEAD.
  bound-Checks :
      (a : Attempt) (reported : Option String) (r : Option AttemptResult)
      (f : ReviewerVerification → Action E (Option TickResult))
      → ((v : ReviewerVerification) → Checks deps state job Wanted (f v))
      → Checks deps state job Wanted (elim job.worktree [
        | none ↦ refuse_binding deps state job r
        | some w ↦
            if is_falsy job.head_sha
            then refuse_binding deps state job r
            else perform (deps.ports.verify_reviewer (reviewer_check deps job a w reported)) >>= f
      ])
  bound-Checks a reported r f k =
      let checks : WorktreeHandle → Action E (Option TickResult) =
        λ w. perform (deps.ports.verify_reviewer (reviewer_check deps job a w reported)) >>= f in
      let test : WorktreeHandle → Action E (Option TickResult) =
        λ w. if is_falsy job.head_sha then refuse_binding deps state job r else checks w in
      let ends : Outcome (Option TickResult) → Type 0 = λ r. goes_on r ≡ false in
      option-Runs deps state job Wanted ends job.worktree (refuse_binding deps state job r) test
        (refuse_binding-Checks r)
        (λ w.
          if-Runs deps state job Wanted ends (is_falsy job.head_sha)
            (refuse_binding deps state job r) (checks w) (refuse_binding-Checks r)
            (bind-Runs deps state job Wanted ends
              (perform (deps.ports.verify_reviewer (reviewer_check deps job a w reported))) f
              (λ s. refl) k))

  pub verify_reviewer_integrity-Checks :
      (a : Attempt) (reported : Option String) (r : Option AttemptResult)
      → Checks deps state job Wanted (verify_reviewer_integrity deps state job a reported r)
  unfolding verify_reviewer_integrity
  verify_reviewer_integrity-Checks a reported r =
      bound-Checks a reported r (on_reviewer_verified deps state job r)
        (on_reviewer_verified-Checks r)

  pub verify_reviewer_preflight-Checks :
      (a : Attempt) (reported : Option String) (r : Option AttemptResult)
      → Checks deps state job Wanted (verify_reviewer_preflight deps state job a reported r)
  unfolding verify_reviewer_preflight
  verify_reviewer_preflight-Checks a reported r =
      bound-Checks a reported r (on_preflight_verified deps state job a r)
        (on_preflight_verified-Checks a r)

  on_validation_verified-Checks :
      (a : Attempt) (v : Outcome ReviewerValidationStatus)
      → Checks deps state job Wanted (on_validation_verified deps state job a v)
  unfolding on_validation_verified
  on_validation_verified-Checks a (ok passed) = λ s. inl refl
  on_validation_verified-Checks a (ok failed_checks) = λ s. inl refl
  on_validation_verified-Checks a (ok infrastructure_error) =
      blocked-Checks deps state job Wanted _ may_block
  on_validation_verified-Checks a (throw message) = blocked-Checks deps state job Wanted _ may_block

  -- The call of Git with the input that the Job and the Attempt give.
  abbrev verification :
      Attempt → ReviewerValidationReceiptBinding → Action E ReviewerValidationStatus
  verification a receipt = of_outcome deps (validation_source job a) >>= λ source.
      perform (deps.ports.verify_validation job source receipt)

  pub verify_bound_validation-Checks :
      (a : Attempt) → Checks deps state job Wanted (verify_bound_validation deps state job a)
  unfolding verify_bound_validation
  verify_bound_validation-Checks a =
      option-Runs deps state job Wanted (λ r. goes_on r ≡ false) a.reviewer_validation_receipt _ _
        (blocked-Checks deps state job Wanted _ may_block)
        (λ receipt.
          bind-Runs deps state job Wanted (λ r. goes_on r ≡ false)
            (attempt (verification a receipt)) (on_validation_verified deps state job a)
            (bind-Quiet (of_outcome deps (validation_source job a))
              (λ source. perform (deps.ports.verify_validation job source receipt)) (λ s. refl)
              (λ source s. refl))
            (on_validation_verified-Checks a))
