-- ===== src/Controller/MergeSteps.antt =====
-- src/controller/delivery.ts: what `observeMerge` does to the ledger, by what the port observes.
use herdr_harness_lite.Controller.Action.{System, pure, or_else, perform, Action, attempt, ◌>>=◌}
use herdr_harness_lite.Model.Job.{
  PullRequestObservation, PullRequestStatus, HarnessState, Job, JobState, PullRequestCheck, blocked,
  PullRequestRef, JobState-discrete, CheckBucket, check_bucket_eq, reviewer_ready,
}
use herdr_harness_lite.Base.{
  true, false, Bool, some_of, filter, List, ◌∷◌, includes, [], ◌==◌, ◌≡◌, ◌||◌, if◌then◌else◌, some,
  inl, not, is_empty, refl, sym, arith, none,
}
use herdr_harness_lite.Controller.Ports.{Outcome, Deps, throw, ok}
use herdr_harness_lite.Controller.Context.{
  is_failed_check, TickResult, waiting_for_merge, merged_job, block, by_controller,
}
use herdr_harness_lite.Controller.Delivery.{
  on_status, observe_merge, on_observed, on_open, on_failed_checks,
}
use herdr_harness_lite.Controller.Steps.{Steps, Among, Step, includes→May, or_else-Steps}
use mathlib.Core.Path.{subst}
use herdr_harness_lite.Controller.DeliverySteps.{Steps→Step, on_failed_checks-Steps}
use herdr_harness_lite.Controller.Saves.{block-Steps, evolved-Steps}
use herdr_harness_lite.Controller.Refresh.{refresh_base_for_review}
use herdr_harness_lite.Controller.RefreshSteps.{refresh_base_for_review-Checks}
use herdr_harness_lite.Model.Incident.{integrity_violation}

-- The states that a Job may be moved to by what is observed of its open pull request: whether a check is
-- pending, whether one has failed or is cancelled, and whether auto-merge is enabled. Only an enabled
-- auto-merge may turn out to have merged it meanwhile.
abbrev pub open_targets : Bool → Bool → Bool → List JobState
open_targets true failing auto_merge = []
open_targets false true auto_merge = blocked ∷ []
open_targets false false true = reviewer_ready ∷ blocked ∷ JobState.done ∷ []
open_targets false false false = reviewer_ready ∷ blocked ∷ []

-- The states by the status of the pull request: only a merged one is done.
abbrev pub status_targets : PullRequestObservation → PullRequestStatus → List JobState
status_targets o PullRequestStatus.merged = JobState.done ∷ []
status_targets o PullRequestStatus.closed_unmerged = blocked ∷ []
status_targets o PullRequestStatus.is_opened =
    open_targets (some_of (λ c. c.bucket == CheckBucket.pending) o.required_checks)
      (some_of (λ c. c.bucket == CheckBucket.fail || c.bucket == CheckBucket.cancel)
        o.required_checks)
      o.auto_merge_enabled

-- The states by what the port answers: a call that fails moves no Job.
abbrev pub merge_targets : Outcome PullRequestObservation → List JobState
merge_targets (throw message) = []
merge_targets (ok o) = status_targets o o.status

failed-lem :
    (checks : List PullRequestCheck)
    → some_of (λ c. c.bucket == CheckBucket.fail || c.bucket == CheckBucket.cancel) checks
      ≡ not (is_empty (filter is_failed_check checks))
unfolding some_of filter is_failed_check
failed-lem [] = refl
failed-lem (c ∷ cs) = ground (arith, failed-lem cs)

module _ {E : Type 0} (deps : Deps E) (state : HarnessState) (job : Job) where
  opened-Steps :
      (pr : PullRequestRef) (failed : List PullRequestCheck) (wait opened : TickResult)
      (pending failing auto_merge : Bool)
      → Steps deps state job (Among (open_targets pending failing auto_merge)) (
          if pending
          then pure wait
          else if failing
          then on_failed_checks deps state job pr auto_merge failed
          else or_else
              (refresh_base_for_review deps state job auto_merge waiting_for_merge)
              (pure opened))
  unfolding includes JobState-discrete
  opened-Steps pr failed wait opened true failing auto_merge = λ s. inl refl
  opened-Steps pr failed wait opened false true auto_merge =
      on_failed_checks-Steps deps state job (Among (blocked ∷ []))
        (includes→May (blocked ∷ []) blocked refl) pr auto_merge failed
  opened-Steps pr failed wait opened false false true =
      let targets = reviewer_ready ∷ blocked ∷ JobState.done ∷ [] in
      let Wanted = Among targets in
      or_else-Steps deps state job Wanted _ (pure opened)
        (refresh_base_for_review-Checks deps state job Wanted (includes→May targets blocked refl)
          (includes→May targets reviewer_ready refl) true waiting_for_merge
          (λ e. includes→May targets JobState.done refl))
        (λ s. inl refl)
  opened-Steps pr failed wait opened false false false =
      let targets = reviewer_ready ∷ blocked ∷ [] in
      let Wanted = Among targets in
      or_else-Steps deps state job Wanted _ (pure opened)
        (refresh_base_for_review-Checks deps state job Wanted (includes→May targets blocked refl)
          (includes→May targets reviewer_ready refl) false waiting_for_merge
          (λ e j f. ground arith))
        (λ s. inl refl)

  on_status-Steps :
      (pr : PullRequestRef) (o : PullRequestObservation) (status : PullRequestStatus)
      → Steps deps state job
          (Among (status_targets o status))
          (on_status deps state job pr o status)
  unfolding on_status on_open includes JobState-discrete
  on_status-Steps pr o PullRequestStatus.is_opened =
      let pending = some_of (λ c. c.bucket == CheckBucket.pending) o.required_checks in
      subst
        (λ b.
          Steps deps state job (Among (open_targets pending b o.auto_merge_enabled))
            (on_open deps state job pr o))
        (sym (failed-lem o.required_checks))
        (opened-Steps pr (filter is_failed_check o.required_checks) _ _ pending
          (not (is_empty (filter is_failed_check o.required_checks))) o.auto_merge_enabled)
  on_status-Steps pr o PullRequestStatus.closed_unmerged =
      block-Steps deps state job (Among (blocked ∷ [])) _ (includes→May (blocked ∷ []) blocked refl)
  on_status-Steps pr o PullRequestStatus.merged =
      evolved-Steps deps state job (Among (JobState.done ∷ [])) merged_job _
        (includes→May (JobState.done ∷ []) JobState.done refl)

  on_observed-Steps :
      (pr : PullRequestRef) (r : Outcome PullRequestObservation)
      → Steps deps state job (Among (merge_targets r)) (on_observed deps state job pr r)
  unfolding on_observed
  on_observed-Steps pr (throw message) = λ s. inl refl
  on_observed-Steps pr (ok o) = on_status-Steps pr o o.status

  -- A run of `observe_merge` on a Job with a pull request leaves the ledger as it was, or with the next
  -- revision of the same Job in the given state, which satisfies the invariant and is in a state that the
  -- port's observation of this pull request allows. A call that fails, and a pending check, move no Job; a
  -- merged pull request makes it done; one that is closed unmerged, or has a failed or cancelled check, blocks
  -- it; any other open one blocks it or sends it to another review, or, if auto-merge is enabled, makes it
  -- done.
  pub observe_merge-Steps :
      (pr : PullRequestRef) (s : System E)
      → job.pull_request ≡ some pr
      → Step deps.platform state job
          (merge_targets (deps.ports.observe_pull_request job.task.repo pr s.env).0)
          s.ledger
          (observe_merge deps state job s).1.ledger
  unfolding observe_merge
  observe_merge-Steps pr s e =
      let call = deps.ports.observe_pull_request job.task.repo pr in
      let targets = merge_targets (call s.env).0 in
      let lost : Action E TickResult =
        block deps state job
          (by_controller integrity_violation "awaiting_merge has no pull request identity") in
      let observe : PullRequestRef → Action E TickResult = λ p.
        attempt (perform (deps.ports.observe_pull_request job.task.repo p))
        >>= on_observed deps state job p in
      subst
        (λ o.
          Step deps.platform state job targets s.ledger
            ((elim o as (λ _. Action E TickResult) [ none ↦ lost | some p ↦ observe p ])
              s).1.ledger)
        (sym e)
        (Steps→Step deps state job (Among targets) (on_observed deps state job pr (call s.env).0)
          (perform call s).1 (on_observed-Steps pr (call s.env).0))
