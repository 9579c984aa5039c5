-- ===== src/Controller/BoundarySteps.antt =====
-- src/controller/automatic-recovery.ts: what an authorization and the check of the boundary do to the
-- ledger.
use herdr_harness_lite.Controller.Action.{◌>>=◌, next_id, Action, require, pure}
use herdr_harness_lite.Controller.Ports.{Deps, Outcome, AttemptSideEffectInspection, throw, ok}
use herdr_harness_lite.Model.Job.{
  HarnessState, Job, WorktreeHandle, blocked, recovery_approved, job_state_eq, evolve_job,
}
use herdr_harness_lite.Base.{
  Bool, Option, ◌≡◌, true, String, inl, false, not, ◌&&◌, none, some, refl,
}
use herdr_harness_lite.Controller.Boundary.{
  on_inspected, authorize_automatic_recovery, verify_provider_boundary, check_boundary,
  grant_automatic, exists, crossed_boundary, boundary_of, is_provider_approval, recovery_granted,
  policy_approval, recovery_entry, boundary_check,
}
use herdr_harness_lite.Model.Attempt.{Attempt}
use herdr_harness_lite.Model.Incident.{Incident, AnalystAdvice, Approval, policy_rule}
use herdr_harness_lite.Policy.Automatic.{Authorized}
use herdr_harness_lite.Controller.Steps.{
  Checks, goes_on, caught-Runs, Steps, if-Runs, bind-Runs, Any, option-Runs, May,
}
use herdr_harness_lite.Controller.Saves.{blocked-Checks, saved-Steps}
use herdr_harness_lite.Controller.Context.{TickResult}

-- The Job has an approved recovery: the policy's approval of the authorized action, with the advice and at the
-- time of the authorization.
abbrev pub HasGrant : Option AnalystAdvice → Authorized → String → Job → Type 0
HasGrant advice automatic at j =
    (j.state ≡ recovery_approved)
    × (j.analysis ≡ advice)
    × (j.updated_at ≡ at)
    × ((approval : Approval) × (j.approval ≡ some approval)
        × (approval.basis ≡ some policy_rule)
        × (approval.action ≡ automatic.action))

module _ {E : Type 0} (deps : Deps E) (state : HarnessState) (job : Job)
    (Wanted : Job → Type 0) where
  pub authorize-Steps :
      (incident : Incident) (advice : Option AnalystAdvice) (automatic : Authorized) (at : String)
      → ((j : Job) → HasGrant advice automatic at j → Wanted j)
      → Steps deps state job Wanted
          (authorize_automatic_recovery deps state job incident advice automatic at)
  unfolding authorize_automatic_recovery grant_automatic next_id evolve_job policy_approval
  authorize-Steps incident advice automatic at may_recover =
      let grant = grant_automatic deps state job incident advice automatic at in
      bind-Runs deps state job Wanted Any (require _ _) (λ _. next_id deps "approval" >>= grant)
        (λ s. refl)
        (λ _.
          bind-Runs deps state job Wanted Any (next_id deps "approval") grant (λ s. refl)
            (λ id.
              saved-Steps deps state job Wanted
                (evolve_job job at (
                  recovery_granted advice (policy_approval job incident advice automatic id at) (
                    recovery_entry (policy_approval job incident advice automatic id at)
                      automatic)))
                _ (refl, refl, refl, may_recover _ (refl, refl, refl, (_, refl, refl, refl)))))

  on_inspected-Checks :
      (a : Attempt) (o : Outcome AttemptSideEffectInspection)
      → May Wanted blocked
      → Checks deps state job Wanted (on_inspected deps state job a o)
  unfolding on_inspected
  on_inspected-Checks a (throw message) may_block = λ s. inl refl
  on_inspected-Checks a (ok o) may_block =
      if-Runs deps state job Wanted (λ r. goes_on r ≡ false)
        (not o.worktree_changed && not o.commit_created) (pure none) _ (λ s. inl refl)
        (blocked-Checks deps state job Wanted _ may_block)

  check_boundary-Checks :
      (a : Attempt) (w : WorktreeHandle) (is_there : Bool)
      → May Wanted blocked
      → Checks deps state job Wanted (check_boundary deps state job a w is_there)
  unfolding check_boundary
  check_boundary-Checks a w true may_block = blocked-Checks deps state job Wanted _ may_block
  check_boundary-Checks a w false may_block =
      caught-Runs deps state job Wanted (λ r. goes_on r ≡ false)
        (deps.ports.inspect_side_effects (boundary_check deps job a w))
        (on_inspected deps state job a) (λ o. on_inspected-Checks a o may_block)

  pub verify_provider_boundary-Checks :
      May Wanted blocked → Checks deps state job Wanted (verify_provider_boundary deps state job)
  unfolding verify_provider_boundary exists
  verify_provider_boundary-Checks may_block =
      let ends : Outcome (Option TickResult) → Type 0 = λ r. goes_on r ≡ false in
      let go_on : Attempt × WorktreeHandle → Action E (Option TickResult) =
        λ (a, w). exists deps a.result_path >>= check_boundary deps state job a w in
      let crossed = crossed_boundary deps state job in
      let bounded : Action E (Option TickResult) = elim (boundary_of job) [
        | none ↦ crossed
        | some p ↦ go_on p
      ] in
      if-Runs deps state job Wanted ends (not (is_provider_approval job)) (pure none) bounded
        (λ s. inl refl)
        (option-Runs deps state job Wanted ends (boundary_of job) crossed go_on
          (blocked-Checks deps state job Wanted _ may_block)
          (λ (a, w).
            bind-Runs deps state job Wanted ends (exists deps a.result_path)
              (check_boundary deps state job a w) (λ s. refl)
              (λ is_there. check_boundary-Checks a w is_there may_block)))
