-- ===== src/Controller/Delivery.antt =====
-- src/controller/delivery.ts: `publish` and `observeMerge`.
use herdr_harness_lite.Controller.Action.{◌>>=◌, ◌>>◌, Action, attempt, perform, pure, or_else, now}
use herdr_harness_lite.Controller.Ports.{Deps, PublishInput, throw, ok, Outcome}
use herdr_harness_lite.Model.Job.{
  PullRequestStatus, HarnessState, Job, PullRequestRef, CiFailure, PullRequestObservation,
  PullRequestCheck, max_ci_reworks, CheckBucket, evolve_job, check_bucket_eq, awaiting_merge,
}
use herdr_harness_lite.Controller.Refresh.{refresh_base_for_review}
use herdr_harness_lite.Controller.Context.{
  block, save_job, TickResult, BlockInput, is_failed_check, by_controller, publish_retry, result,
  waiting_for_merge, summarize_ci_failure, published, merged_job, TickAction,
}
use herdr_harness_lite.Base.{
  Bool, List, String, none, filter, if◌then◌else◌, leb, some, some_of, ◌otherwise◌, ◌==◌, false,
  true, not, ◌/=◌, is_empty, string_eq,
}
use herdr_harness_lite.Policy.{is_falsy}
use herdr_harness_lite.Model.Incident.{
  integrity_violation, ci_rework_exhausted, BlockClass, controller,
}
use herdr_harness_lite.Base.Text.{◌<>◌, show_number}

module _ {E : Type 0} (deps : Deps E) where
  -- The Job whose pull request is published.
  abbrev pub awaiting : PullRequestRef → Job → Job
  awaiting pr j = record j {
    state = awaiting_merge;
    pull_request = some pr;
    ci_failure = none;
    last_error = none;
  }

  unfoldable pub on_published :
      HarnessState → Job → String → Outcome PullRequestRef → Action E TickResult
  unfolding block save_job
  on_published state job head (throw message) =
      pure
        (result false publish_retry job ("publish is retryable and not yet confirmed: " <> message))
  on_published state job head (ok pr) =
      if pr.head_sha /= head
      then block deps state job (
          by_controller integrity_violation
            ("PR head " <> pr.head_sha <> " differs from reviewed head " <> head))
      else (do
        at ← now deps
        save_job deps state job (evolve_job job at (awaiting pr))
        pure (
            result true published job (
              "PR #"
              <> show_number pr.number
              <> (if deps.config.auto_merge
                  then " published with native auto-merge requested"
                  else " published; merge remains external"))))

  abbrev pub publish_input : Job → String → PublishInput
  publish_input job head = record {
    repo = job.task.repo;
    issue_number = job.task.issue_number;
    branch = job.branch;
    base_ref = deps.config.base_ref;
    head_sha = head;
    title = job.task.title;
    worktree_path = elim job.worktree [ none ↦ deps.config.local_path | some w ↦ w.path ];
  }

  -- `publish` once the base is known to stand.
  unfoldable pub publish_head : HarnessState → Job → String → Action E TickResult
  unfolding on_published
  publish_head state job head =
      attempt (perform (deps.ports.publish (publish_input job head)))
      >>= on_published state job head

  unfoldable pub publish : HarnessState → Job → Action E TickResult
  unfolding refresh_base_for_review publish_head block
  publish state job =
      if is_falsy job.head_sha
      then block deps state job
          (by_controller integrity_violation "publish lane has no reviewed HEAD")
      else or_else (refresh_base_for_review deps state job false publish_retry)
          (publish_head state job (job.head_sha otherwise ""))

  -- The Job whose required checks have failed.
  abbrev pub ci_block : Job → PullRequestRef → CiFailure → BlockInput
  ci_block job pr failure = record {
    block_class =
        if leb max_ci_reworks (job.ci_rework_count otherwise 0)
        then ci_rework_exhausted
        else BlockClass.ci_failure;
    lane = controller;
    summary = summarize_ci_failure pr.number failure;
    attempt_result = none;
    ci_failure = some failure;
    automatic_recovery = none;
    runtime_diagnostic = none;
  }

  -- `observeMerge` at an open pull request with failed checks, once auto-merge is suspended.
  unfoldable pub block_on_ci :
      HarnessState → Job → PullRequestRef → List PullRequestCheck → Action E TickResult
  unfolding block
  block_on_ci state job pr failed = do
    at ← now deps
    let failure : CiFailure = record { head_sha = pr.head_sha; observed_at = at; checks = failed }
    block deps state job (ci_block job pr failure)

  unfoldable pub on_ci_suspended :
      HarnessState
      → Job
      → PullRequestRef
      → List PullRequestCheck
      → Outcome (Unit {0})
      → Action E TickResult
  unfolding block_on_ci
  on_ci_suspended state job pr failed (throw message) = pure (
      result false waiting_for_merge job
        ("required CI failed but auto-merge suspension is not confirmed: " <> message))
  on_ci_suspended state job pr failed (ok _) = block_on_ci state job pr failed

  unfoldable pub on_failed_checks :
      HarnessState → Job → PullRequestRef → Bool → List PullRequestCheck → Action E TickResult
  unfolding on_ci_suspended
  on_failed_checks state job pr auto_merge failed =
      if auto_merge
      then attempt (perform (deps.ports.suspend_auto_merge job.task.repo pr))
        >>= on_ci_suspended state job pr failed
      else block_on_ci state job pr failed

  -- `observeMerge` at an open pull request.
  unfoldable pub on_open :
      HarnessState → Job → PullRequestRef → PullRequestObservation → Action E TickResult
  unfolding on_failed_checks refresh_base_for_review
  on_open state job pr observation =
      let failed = filter is_failed_check observation.required_checks in
      if some_of (λ c. c.bucket == CheckBucket.pending) observation.required_checks
      then pure (
          result true waiting_for_merge job
            ("PR #" <> show_number pr.number <> " required checks are still pending"))
      else if not (is_empty failed)
      then on_failed_checks state job pr observation.auto_merge_enabled failed
      else or_else
          (refresh_base_for_review deps state job observation.auto_merge_enabled waiting_for_merge)
          (pure (
            result true waiting_for_merge job
              ("PR #" <> show_number pr.number <> " is still open")))

  unfoldable pub on_status :
      HarnessState
      → Job
      → PullRequestRef
      → PullRequestObservation
      → PullRequestStatus
      → Action E TickResult
  unfolding on_open block save_job
  on_status state job pr observation PullRequestStatus.is_opened = on_open state job pr observation
  on_status state job pr observation PullRequestStatus.closed_unmerged = block deps state job (
      by_controller integrity_violation
        ("PR #" <> show_number pr.number <> " closed without merge"))
  on_status state job pr observation PullRequestStatus.merged = do
    at ← now deps
    save_job deps state job (evolve_job job at merged_job)
    pure (result true TickAction.merged job ("PR #" <> show_number pr.number <> " merged"))

  unfoldable pub on_observed :
      HarnessState → Job → PullRequestRef → Outcome PullRequestObservation → Action E TickResult
  unfolding on_status
  on_observed state job pr (throw message) =
      pure (result false waiting_for_merge job ("PR observation is retryable: " <> message))
  on_observed state job pr (ok observation) = on_status state job pr observation observation.status

  unfoldable pub observe_merge : HarnessState → Job → Action E TickResult
  unfolding on_observed block
  observe_merge state job = elim job.pull_request [
    | none ↦
        block deps state job
          (by_controller integrity_violation "awaiting_merge has no pull request identity")
    | some pr ↦
        attempt (perform (deps.ports.observe_pull_request job.task.repo pr))
        >>= on_observed state job pr
  ]
