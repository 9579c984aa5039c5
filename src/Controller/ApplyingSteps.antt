-- ===== src/Controller/ApplyingSteps.antt =====
-- src/controller/recovery-flow.ts: what a tick of a Job with an approved recovery does to the ledger.
use herdr_harness_lite.Controller.Action.{
  ◌>>=◌, perform, Action, attempt, pure, or_check, or_else, now, fail, System,
}
use herdr_harness_lite.Controller.Ports.{Deps, Outcome, ok, throw, CloseReason}
use herdr_harness_lite.Model.Job.{
  HarnessState, Job, blocked, PullRequestRef, PullRequestObservation, job_state_eq,
  PullRequestStatus, pull_request_status_eq, evolve_job,
}
use herdr_harness_lite.Model.Incident.{
  recovery_action_eq, Approval, Incident, integrity_violation, retry_fresh_reviewer,
}
use herdr_harness_lite.Base.{
  arith, ◌≡◌, true, Option, false, if◌then◌else◌, refl, not, ◌/=◌, none, some, is_none, inl, ◌⊎◌,
}
use herdr_harness_lite.Controller.Applying.{
  check_ci_recovery, check_review_recovery, check_recovery, close_old, apply_bound,
  consume_recovery, make_safe, on_made_safe, on_old_closed, suspend_if_open, is_bound_approval,
  retried_state, reworked_pull_request, replaced_review, is_ci_recovery,
}
use herdr_harness_lite.Controller.Steps.{
  Quiet, goes_on, Checks, Steps, or_check-Checks, if-Quiet, option-Quiet, Quiet→Runs, if-Runs,
  bind-Quiet, option-Runs, May, passed-Steps,
}
use herdr_harness_lite.Controller.Saves.{block-Steps, timed-Steps, blocked-Checks, saved-Steps}
use herdr_harness_lite.Model.Attempt.{Attempt}
use herdr_harness_lite.Controller.Context.{TickResult, by_controller}
use herdr_harness_lite.Controller.Boundary.{verify_provider_boundary, refuse, is_provider_approval}
use herdr_harness_lite.Controller.Integrity.{verify_reviewer_preflight}
use herdr_harness_lite.Controller.Closing.{close_attempt}
use herdr_harness_lite.Controller.CompletionSteps.{tested-Steps}
use herdr_harness_lite.Controller.BoundarySteps.{verify_provider_boundary-Checks}
use herdr_harness_lite.Controller.ClosingSteps.{close_attempt-Quiet}
use herdr_harness_lite.Controller.IntegritySteps.{verify_reviewer_preflight-Checks}
use herdr_harness_lite.Controller.PassedBoundary.{
  Stands, or_check-passed, verify_provider_boundary-passed,
}

module _ {E : Type 0} (deps : Deps E) (state : HarnessState) (job : Job) (Wanted : Job → Type 0)
    (may_block : May Wanted blocked) where
  abbrev Ends : Outcome (Option TickResult) → Type 0
  Ends r = goes_on r ≡ false

  suspend_if_open-Quiet :
      (pr : PullRequestRef) (o : PullRequestObservation) → Quiet (suspend_if_open deps job pr o)
  suspend_if_open-Quiet pr o =
      let suspend = perform (deps.ports.suspend_auto_merge job.task.repo pr) in
      let rest = if o.auto_merge_enabled then suspend else pure tt in
      if-Quiet (o.status /= PullRequestStatus.is_opened) (fail _) rest (λ s. refl)
        (if-Quiet o.auto_merge_enabled suspend (pure tt) (λ s. refl) (λ s. refl))

  on_made_safe-Quiet : (r : Outcome (Unit {0})) → Quiet (on_made_safe deps job r)
  on_made_safe-Quiet (ok u) s = refl
  on_made_safe-Quiet (throw message) s = refl

  on_old_closed-Quiet : (r : Outcome (Unit {0})) → Quiet (on_old_closed deps job r)
  on_old_closed-Quiet (ok u) s = refl
  on_old_closed-Quiet (throw message) s = refl

  check_ci_recovery-Checks :
      (approval : Approval) (incident : Incident)
      → Checks deps state job Wanted (check_ci_recovery deps state job approval incident)
  unfolding check_ci_recovery make_safe
  check_ci_recovery-Checks approval incident =
      let lost : Action E (Option TickResult) = refuse deps state job (
        by_controller integrity_violation
          "fresh Worker CI recovery lost its exact PR or Git binding") in
      let safe : PullRequestRef → Action E (Option TickResult) =
        λ pr. attempt (make_safe deps job pr) >>= on_made_safe deps job in
      let rework : Action E (Option TickResult) = elim (reworked_pull_request job incident) [
        | none ↦ lost
        | some pr ↦ safe pr
      ] in
      if-Runs deps state job Wanted Ends (not (is_ci_recovery approval incident)) (pure none) rework
        (λ s. inl refl)
        (option-Runs deps state job Wanted Ends (reworked_pull_request job incident) lost safe
          (blocked-Checks deps state job Wanted _ may_block)
          (λ pr. Quiet→Runs deps state job Wanted Ends (safe pr) (
            bind-Quiet (attempt (make_safe deps job pr)) (on_made_safe deps job)
              (bind-Quiet (perform (deps.ports.observe_pull_request job.task.repo pr))
                (suspend_if_open deps job pr) (λ s. refl) (suspend_if_open-Quiet pr))
              on_made_safe-Quiet)))

  check_review_recovery-Checks :
      (approval : Approval) (incident : Incident)
      → Checks deps state job Wanted (check_review_recovery deps state job approval incident)
  unfolding check_review_recovery
  check_review_recovery-Checks approval incident =
      let verify : Attempt → Action E (Option TickResult) =
        λ a. verify_reviewer_preflight deps state job a job.head_sha a.result in
      let lost : Action E (Option TickResult) =
        refuse deps state job
          (record (by_controller integrity_violation
            "fresh Reviewer recovery lost its exact incident or Git binding") {
              attempt_result = elim job.active_attempt [ none ↦ none | some a ↦ a.result ];
            }) in
      let review : Action E (Option TickResult) = elim (replaced_review job incident) [
        | none ↦ lost
        | some a ↦ verify a
      ] in
      if-Runs deps state job Wanted Ends (approval.action /= retry_fresh_reviewer) (pure none)
        review (λ s. inl refl)
        (option-Runs deps state job Wanted Ends (replaced_review job incident) lost verify
          (blocked-Checks deps state job Wanted _ may_block)
          (λ a.
            verify_reviewer_preflight-Checks deps state job Wanted may_block a job.head_sha
              a.result))

  close_old-Quiet : Quiet (close_old deps job)
  unfolding close_old
  close_old-Quiet =
      let close : Attempt → Action E (Option TickResult) =
        λ a. attempt (close_attempt deps a CloseReason.recovery) >>= on_old_closed deps job in
      option-Quiet job.active_attempt (pure none)
        (λ a. if is_none a.handle then pure none else close a) (λ s. refl)
        (λ a.
          if-Quiet (is_none a.handle) (pure none) (close a) (λ s. refl)
            (bind-Quiet (attempt (close_attempt deps a CloseReason.recovery))
              (on_old_closed deps job) (close_attempt-Quiet deps a CloseReason.recovery)
              on_old_closed-Quiet))

  check_recovery-Checks :
      (approval : Approval) (incident : Incident)
      → Checks deps state job Wanted (check_recovery deps state job approval incident)
  unfolding check_recovery
  check_recovery-Checks approval incident =
      let ci = check_ci_recovery deps state job approval incident in
      let boundary = verify_provider_boundary deps state job in
      let review = check_review_recovery deps state job approval incident in
      let old = close_old deps job in
      or_check-Checks deps state job Wanted ci (or_check boundary (or_check review old))
        (check_ci_recovery-Checks approval incident)
        (or_check-Checks deps state job Wanted boundary (or_check review old)
          (verify_provider_boundary-Checks deps state job Wanted may_block)
          (or_check-Checks deps state job Wanted review old
            (check_review_recovery-Checks approval incident)
            (Quiet→Runs deps state job Wanted Ends old close_old-Quiet)))

  check_recovery-passed :
      (approval : Approval) (incident : Incident) (s : System E)
      → (check_recovery deps state job approval incident s).0 ≡ ok none
      → (is_provider_approval job ≡ false) ⊎ Stands deps job
  unfolding check_recovery
  check_recovery-passed approval incident s passed =
      let ci = check_ci_recovery deps state job approval incident in
      let boundary = verify_provider_boundary deps state job in
      let rest =
        or_check (check_review_recovery deps state job approval incident) (close_old deps job) in
      let after_ci = (or_check-passed ci (or_check boundary rest) s passed).1 in
      verify_provider_boundary-passed deps state job (ci s).1
        (or_check-passed boundary rest (ci s).1 after_ci).0

  pub apply_bound-Steps :
      (approval : Approval) (incident : Incident)
      → (is_bound_approval job approval incident ≡ true
          → (is_provider_approval job ≡ false) ⊎ Stands deps job
          → (j : Job) → j.state ≡ retried_state approval.action
          → j.active_attempt ≡ none
          → j.incident ≡ none
          → Wanted j)
      → Steps deps state job Wanted (apply_bound deps state job approval incident)
  unfolding apply_bound consume_recovery evolve_job
  apply_bound-Steps approval incident may_retry =
      let check = check_recovery deps state job approval incident in
      let consume = consume_recovery deps state job approval incident in
      tested-Steps deps state job Wanted may_block (not (is_bound_approval job approval incident)) _
        (or_else check (now deps >>= consume)) (block-Steps deps state job Wanted _ may_block)
        (λ e.
          passed-Steps deps state job Wanted check (now deps >>= consume)
            (check_recovery-Checks approval incident)
            (λ s passed. timed-Steps deps state job Wanted consume (λ at.
              saved-Steps deps state job Wanted _ _ (
                refl,
                refl,
                refl,
                may_retry (ground arith) (check_recovery-passed approval incident s passed) _ refl
                    refl refl,
              ))))
