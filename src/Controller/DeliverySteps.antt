-- ===== src/Controller/DeliverySteps.antt =====
-- src/controller/delivery.ts: the steps that `publish` and `observeMerge` make in the ledger.
use herdr_harness_lite.Controller.Action.{Action, ◌>>=◌, ◌>>◌, System, pure, now}
use herdr_harness_lite.Controller.Ports.{Deps, Outcome, throw, ok}
use herdr_harness_lite.Model.Job.{
  HarnessState, Job, blocked, awaiting_merge, reviewer_ready, PullRequestRef, PullRequestCheck,
  job_state_eq, evolve_job, check_bucket_eq,
}
use herdr_harness_lite.Base.{
  List, ◌≡◌, true, inl, String, inr, Bool, none, refl, false, some, ◌otherwise◌, ◌/=◌, string_eq,
  arith, ◌⊎◌, Option, ◌≢◌, sym,
}
use herdr_harness_lite.Controller.Steps.{
  Steps, caught-Runs, bind-Runs, or_else-Steps, Any, StepTo, May, branch-Runs, answered-Runs,
}
use herdr_harness_lite.Controller.Saves.{block-Steps, evolved_to-Steps}
use herdr_harness_lite.Controller.Delivery.{
  on_published, on_ci_suspended, block_on_ci, publish, publish_head, on_failed_checks, ci_block,
  awaiting, publish_input,
}
use herdr_harness_lite.Controller.Context.{BlockInput, publish_retry, block, save_job}
use herdr_harness_lite.Controller.Refresh.{refresh_base_for_review}
use herdr_harness_lite.Policy.{is_falsy}
use herdr_harness_lite.Controller.RefreshSteps.{refresh_base_for_review-Checks}
use mathlib.Core.Path.{subst}

-- A run of a handler, as a step.
pub Steps→Step :
    {E A : Type 0} (deps : Deps E) (state : HarnessState) (job : Job) (Wanted : Job → Type 0)
    (m : Action E A) (s : System E)
    → Steps deps state job Wanted m
    → StepTo deps.platform state job Wanted s.ledger (m s).1.ledger
Steps→Step deps state job Wanted m s runs = elim (runs s) [
  | inl quiet ↦ inl quiet
  | inr (moved, end) ↦ inr moved
]

-- The Job is blocked, waits for another review, or awaits the merge of a pull request that the port has
-- answered to the publication of the Job's HEAD, and that stands at this HEAD.
abbrev pub Published : {E : Type 0} → Deps E → Job → Job → Type 0
Published {E} deps job j =
    (j.state ≡ blocked)
    ⊎ ((j.state ≡ reviewer_ready)
        ⊎ ((j.state ≡ awaiting_merge)
            × ((pr : PullRequestRef) × (e : E) × (j.pull_request ≡ some pr)
                × (job.head_sha ≡ some pr.head_sha)
                × (pr.head_sha ≢ "")
                × ((deps.ports.publish (publish_input deps job pr.head_sha) e).0 ≡ ok pr))))

named-Present :
    (head : Option String) (sha : String)
    → is_falsy head ≡ false
    → sha ≡ (head otherwise "")
    → (head ≡ some sha) × (sha ≢ "")
named-Present none sha h e = ground arith
named-Present (some x) sha h e = ground arith

module _ {E : Type 0} (deps : Deps E) (state : HarnessState) (job : Job) where
  awaited-Steps :
      {A : Type 0} (pr : PullRequestRef) (e : E) (answer : A)
      → is_falsy job.head_sha ≡ false
      → (deps.ports.publish (publish_input deps job (job.head_sha otherwise "")) e).0 ≡ ok pr
      → pr.head_sha ≡ (job.head_sha otherwise "")
      → Steps deps state job (Published deps job) (
          now deps >>= λ at.
          save_job deps state job (evolve_job job at (awaiting deps pr)) >> pure answer)
  unfolding evolve_job
  awaited-Steps pr e answer named answered same =
      let (present, nonempty) = named-Present job.head_sha pr.head_sha named same in
      evolved_to-Steps deps state job (Published deps job) (awaiting deps pr) answer (λ at. inr (
        inr (
          refl,
          (
            pr,
            e,
            refl,
            present,
            nonempty,
            subst (λ h. (deps.ports.publish (publish_input deps job h) e).0 ≡ ok pr) (sym same)
                answered,
          ),
        )))

  on_published-Steps :
      (r : Outcome PullRequestRef) (e : E)
      → is_falsy job.head_sha ≡ false
      → (deps.ports.publish (publish_input deps job (job.head_sha otherwise "")) e).0 ≡ r
      → Steps deps state job
          (Published deps job)
          (on_published deps state job (job.head_sha otherwise "") r)
  unfolding on_published
  on_published-Steps (throw message) e named answered = λ s. inl refl
  on_published-Steps (ok pr) e named answered =
      let head = job.head_sha otherwise "" in
      branch-Runs deps state job (Published deps job) Any (pr.head_sha /= head) _ _
        (λ differs. block-Steps deps state job (Published deps job) _ (λ j b. inl b))
        (λ same. awaited-Steps pr e _ named answered (ground arith))

  publish-runs : Steps deps state job (Published deps job) (publish deps state job)
  unfolding publish publish_head
  publish-runs =
      let Wanted = Published deps job in
      let refresh = refresh_base_for_review deps state job false publish_retry in
      branch-Runs deps state job Wanted Any (is_falsy job.head_sha) _ _
        (λ lost. block-Steps deps state job Wanted _ (λ j b. inl b))
        (λ named.
          or_else-Steps deps state job Wanted refresh _
            (refresh_base_for_review-Checks deps state job Wanted (λ j b. inl b)
              (λ j r. inr (inl r)) false publish_retry (λ e j f. ground arith))
            (answered-Runs deps state job Wanted Any
              (deps.ports.publish (publish_input deps job (job.head_sha otherwise "")))
              (on_published deps state job (job.head_sha otherwise ""))
              (λ r e answered. on_published-Steps r e named answered)))

  -- A run of `publish` leaves the ledger as it was, or with the next revision of the same Job in the given
  -- state, which satisfies the invariant and is blocked, awaits another review, or awaits its merge. It awaits
  -- a merge only of a pull request that the port has answered to the publication of the Job's HEAD, which is
  -- present, and that stands at exactly this HEAD.
  pub publish-Publishes :
      (s : System E)
      → StepTo deps.platform state job
          (Published deps job)
          s.ledger
          (publish deps state job s).1.ledger
  publish-Publishes s =
      Steps→Step deps state job (Published deps job) (publish deps state job) s publish-runs

module _ {E : Type 0} (deps : Deps E) (state : HarnessState) (job : Job) (Wanted : Job → Type 0)
    (may_block : May Wanted blocked) where
  block_on_ci-Steps :
      (pr : PullRequestRef) (failed : List PullRequestCheck)
      → Steps deps state job Wanted (block_on_ci deps state job pr failed)
  unfolding block_on_ci now
  block_on_ci-Steps pr failed =
      let failure_at : String → BlockInput = λ at.
        ci_block deps job pr
          (record { head_sha = pr.head_sha; observed_at = at; checks = failed }) in
      bind-Runs deps state job Wanted Any (now deps) (λ at. block deps state job (failure_at at))
        (λ s. refl) (λ at. block-Steps deps state job Wanted (failure_at at) may_block)

  on_ci_suspended-Steps :
      (pr : PullRequestRef) (failed : List PullRequestCheck) (r : Outcome (Unit {0}))
      → Steps deps state job Wanted (on_ci_suspended deps state job pr failed r)
  unfolding on_ci_suspended
  on_ci_suspended-Steps pr failed (throw message) = λ s. inl refl
  on_ci_suspended-Steps pr failed (ok _) = block_on_ci-Steps pr failed

  pub on_failed_checks-Steps :
      (pr : PullRequestRef) (auto_merge : Bool) (failed : List PullRequestCheck)
      → Steps deps state job Wanted (on_failed_checks deps state job pr auto_merge failed)
  unfolding on_failed_checks
  on_failed_checks-Steps pr true failed =
      caught-Runs deps state job Wanted Any (deps.ports.suspend_auto_merge job.task.repo pr)
        (on_ci_suspended deps state job pr failed) (on_ci_suspended-Steps pr failed)
  on_failed_checks-Steps pr false failed = block_on_ci-Steps pr failed
