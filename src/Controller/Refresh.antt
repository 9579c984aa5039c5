-- ===== src/Controller/Refresh.antt =====
-- src/controller/delivery.ts: `refreshBaseForReview`, which brings a branch onto a base that has moved.
use herdr_harness_lite.Controller.Action.{◌>>=◌, ◌>>◌, Action, attempt, perform, pure, now}
use herdr_harness_lite.Controller.Ports.{
  Deps, SyncInput, throw, ok, refused, synced, Outcome, BaseSyncVerification,
}
use herdr_harness_lite.Controller.Context.{
  save_job, block, TickAction, TickResult, result, by_controller, merged_job, base_refreshed,
}
use herdr_harness_lite.Model.Job.{
  HarnessState, Job, WorktreeHandle, reviewer_ready, PullRequestRef, PullRequestStatus, evolve_job,
  pull_request_status_eq,
}
use herdr_harness_lite.Base.{
  String, Bool, some, none, Option, false, ◌==◌, if◌then◌else◌, string_eq, true, ◌otherwise◌, not,
}
use herdr_harness_lite.Ledger.Handoffs.{pull_request_head}
use herdr_harness_lite.Model.Incident.{integrity_violation}
use herdr_harness_lite.Base.Text.{◌<>◌, show_number}
use herdr_harness_lite.Policy.{is_falsy}

module _ {E : Type 0} (deps : Deps E) where
  -- What `refreshBaseForReview` saves once the branch holds the new base.
  abbrev pub refreshed : String → String → Job → Job
  refreshed base head j = record j {
    state = reviewer_ready;
    base_sha = base;
    head_sha = some head;
    active_attempt = none;
    ci_failure = none;
    last_error = none;
  }

  -- The answer of `syncBase`: the last part of `refreshBaseForReview`.
  unfoldable pub on_synced :
      HarnessState
      → Job
      → TickAction
      → String
      → Outcome BaseSyncVerification
      → Action E (Option TickResult)
  unfolding block save_job
  on_synced state job retry latest (throw message) =
      pure (some (result false retry job ("base refresh is retryable: " <> message)))
  on_synced state job retry latest (ok (refused class reason)) =
      block deps state job (by_controller class reason) >>= λ r. pure (some r)
  on_synced state job retry latest (ok (synced head)) = do
    at ← now deps
    save_job deps state job (evolve_job job at (refreshed latest head))
    pure (
        some (
          result true base_refreshed job (
            "base advanced to " <> latest <> "; refreshed HEAD " <> head
            <> " requires fresh review")))

  unfoldable pub sync_base_for_review :
      HarnessState
      → Job
      → WorktreeHandle
      → String
      → TickAction
      → String
      → Action E (Option TickResult)
  unfolding on_synced
  sync_base_for_review state job worktree head retry latest =
      let input : SyncInput = record {
        worktree = worktree;
        branch = job.branch;
        base_ref = deps.config.base_ref;
        expected_head_sha = head;
        expected_remote_head_sha = pull_request_head job;
        latest_base_sha = latest;
      } in
      attempt (perform (deps.ports.sync_base input)) >>= on_synced state job retry latest

  -- The answer to a failed suspension of auto-merge.
  abbrev pub give_up : Job → TickAction → String → TickResult
  give_up job retry message =
      result false retry job ("base moved but auto-merge suspension is not confirmed: " <> message)

  -- The second look at a pull request whose auto-merge could not be suspended.
  unfoldable pub on_second_look :
      HarnessState → Job → PullRequestRef → TickResult → PullRequestStatus → Action E TickResult
  unfolding save_job
  on_second_look state job pr otherwise_result PullRequestStatus.merged = do
    at ← now deps
    save_job deps state job (evolve_job job at merged_job)
    pure (result true TickAction.merged job ("PR #" <> show_number pr.number <> " merged"))
  on_second_look state job pr otherwise_result _ = pure otherwise_result

  -- The second look and its save; the pull request may have been merged meanwhile.
  unfoldable pub second_look :
      HarnessState → Job → PullRequestRef → TickResult → Action E TickResult
  unfolding on_second_look
  second_look state job pr otherwise_result =
      perform (deps.ports.observe_pull_request job.task.repo pr) >>= λ o.
      on_second_look state job pr otherwise_result o.status

  -- A failure of the second look, of its clock or of its save is dropped.
  unfoldable pub observe_after_suspension :
      HarnessState → Job → PullRequestRef → TickAction → String → Action E (Option TickResult)
  unfolding second_look
  observe_after_suspension state job pr retry message =
      attempt (second_look state job pr (give_up job retry message)) >>= λ r.
      pure (some (elim r [ ok t ↦ t | throw _ ↦ give_up job retry message ]))

  -- The answer to the suspension of auto-merge, once the base is known to have moved.
  unfoldable pub on_suspended :
      HarnessState
      → Job
      → WorktreeHandle
      → String
      → TickAction
      → String
      → PullRequestRef
      → Outcome (Unit {0})
      → Action E (Option TickResult)
  unfolding sync_base_for_review observe_after_suspension
  on_suspended state job worktree head retry latest pr (throw message) =
      observe_after_suspension state job pr retry message
  on_suspended state job worktree head retry latest pr (ok _) =
      sync_base_for_review state job worktree head retry latest

  -- A base that moved: auto-merge is suspended before the branch is touched.
  unfoldable pub on_moved_base :
      HarnessState
      → Job
      → WorktreeHandle
      → String
      → Bool
      → TickAction
      → String
      → Action E (Option TickResult)
  unfolding on_suspended sync_base_for_review
  on_moved_base state job worktree head auto_merge retry latest = elim job.pull_request [
    | none ↦ sync_base_for_review state job worktree head retry latest
    | some pr ↦
        if not auto_merge
        then sync_base_for_review state job worktree head retry latest
        else attempt (perform (deps.ports.suspend_auto_merge job.task.repo pr))
          >>= on_suspended state job worktree head retry latest pr
  ]

  unfoldable pub on_latest_base :
      HarnessState
      → Job
      → WorktreeHandle
      → String
      → Bool
      → TickAction
      → Outcome String
      → Action E (Option TickResult)
  unfolding on_moved_base
  on_latest_base state job worktree head auto_merge retry (throw message) =
      pure (some (result false retry job ("base refresh is retryable: " <> message)))
  on_latest_base state job worktree head auto_merge retry (ok latest) =
      if latest == job.base_sha
      then pure none
      else on_moved_base state job worktree head auto_merge retry latest

  -- `refreshBaseForReview`, with the worktree and the HEAD that it needs; `none` if the base stands.
  unfoldable pub refresh_base_at :
      HarnessState
      → Job
      → WorktreeHandle
      → String
      → Bool
      → TickAction
      → Action E (Option TickResult)
  unfolding on_latest_base
  refresh_base_at state job worktree head auto_merge retry =
      attempt (perform (deps.ports.refresh_base deps.config.local_path deps.config.base_ref))
      >>= on_latest_base state job worktree head auto_merge retry

  unfoldable pub no_worktree : HarnessState → Job → Action E (Option TickResult)
  unfolding block
  no_worktree state job =
      block deps state job
        (by_controller integrity_violation "base refresh requires a worktree and reviewed HEAD")
      >>= λ r. pure (some r)

  unfoldable pub refresh_base_for_review :
      HarnessState → Job → Bool → TickAction → Action E (Option TickResult)
  unfolding refresh_base_at no_worktree
  refresh_base_for_review state job auto_merge retry = elim job.worktree [
    | none ↦ no_worktree state job
    | some worktree ↦
        if is_falsy job.head_sha
        then no_worktree state job
        else refresh_base_at state job worktree (job.head_sha otherwise "") auto_merge retry
  ]
