-- ===== src/Controller/RefreshSteps.antt =====
-- src/controller/delivery.ts: the steps that `refreshBaseForReview` makes in the ledger.
use herdr_harness_lite.Controller.Action.{Action, ◌>>=◌, attempt, perform, pure}
use herdr_harness_lite.Controller.Ports.{
  Deps, Outcome, throw, BaseSyncVerification, ok, refused, synced,
}
use herdr_harness_lite.Model.Job.{
  HarnessState, Job, JobState, blocked, reviewer_ready, WorktreeHandle, PullRequestRef,
  PullRequestStatus, job_state_eq,
}
use herdr_harness_lite.Base.{
  ◌≡◌, true, Option, Bool, String, ◌otherwise◌, inl, false, if◌then◌else◌, ◌==◌, refl, none,
  string_eq,
}
use herdr_harness_lite.Controller.Refresh.{
  sync_base_for_review, refresh_base_for_review, second_look, no_worktree, on_latest_base,
  on_second_look, observe_after_suspension, on_synced, on_suspended, on_moved_base, refresh_base_at,
  give_up, refreshed,
}
use herdr_harness_lite.Controller.Steps.{
  Checks, goes_on, Steps, caught-Runs, answered-Checks, option-Runs, bind-Runs, if-Runs, May,
}
use herdr_harness_lite.Controller.Saves.{blocked-Checks, evolved-Steps, evolved-Checks}
use herdr_harness_lite.Controller.Context.{
  TickAction, TickResult, by_controller, merged_job, result, base_refreshed,
}
use herdr_harness_lite.Model.Incident.{integrity_violation}
use herdr_harness_lite.Ledger.Handoffs.{pull_request_head}
use herdr_harness_lite.Policy.{is_falsy}
use herdr_harness_lite.Base.Text.{◌<>◌, show_number}

module _ {E : Type 0} (deps : Deps E) (state : HarnessState) (job : Job) (Wanted : Job → Type 0)
    (may_block : May Wanted blocked) (may_review : May Wanted reviewer_ready) where
  -- A check by a port that may throw, whose answer ends the check or not.
  abbrev pub Ending : Outcome (Option TickResult) → Type 0
  Ending r = goes_on r ≡ false

  on_synced-Checks :
      (retry : TickAction) (latest : String) (r : Outcome BaseSyncVerification)
      → Checks deps state job Wanted (on_synced deps state job retry latest r)
  unfolding on_synced
  on_synced-Checks retry latest (throw message) = λ s. inl refl
  on_synced-Checks retry latest (ok (refused class reason)) =
      blocked-Checks deps state job Wanted (by_controller class reason) may_block
  on_synced-Checks retry latest (ok (synced head)) =
      evolved-Checks deps state job Wanted (refreshed deps latest head)
        (result true base_refreshed job (
          "base advanced to " <> latest <> "; refreshed HEAD " <> head <> " requires fresh review"))
        may_review

  sync_base_for_review-Checks :
      (worktree : WorktreeHandle) (head : String) (retry : TickAction) (latest : String)
      → Checks deps state job Wanted
          (sync_base_for_review deps state job worktree head retry latest)
  unfolding sync_base_for_review
  sync_base_for_review-Checks worktree head retry latest =
      caught-Runs deps state job Wanted Ending
        (deps.ports.sync_base (record {
          worktree = worktree;
          branch = job.branch;
          base_ref = deps.config.base_ref;
          expected_head_sha = head;
          expected_remote_head_sha = pull_request_head job;
          latest_base_sha = latest;
        }))
        (on_synced deps state job retry latest) (on_synced-Checks retry latest)

  on_second_look-Steps :
      (pr : PullRequestRef) (t : TickResult) (status : PullRequestStatus)
      → May Wanted JobState.done
      → Steps deps state job Wanted (on_second_look deps state job pr t status)
  unfolding on_second_look
  on_second_look-Steps pr t PullRequestStatus.merged may_finish =
      evolved-Steps deps state job Wanted merged_job
        (result true TickAction.merged job ("PR #" <> show_number pr.number <> " merged"))
        may_finish
  on_second_look-Steps pr t PullRequestStatus.is_opened may_finish = λ s. inl refl
  on_second_look-Steps pr t PullRequestStatus.closed_unmerged may_finish = λ s. inl refl

  second_look-Steps :
      (pr : PullRequestRef) (t : TickResult)
      → May Wanted JobState.done
      → Steps deps state job Wanted (second_look deps state job pr t)
  unfolding second_look
  second_look-Steps pr t may_finish =
      bind-Runs deps state job Wanted (λ r. Unit)
        (perform (deps.ports.observe_pull_request job.task.repo pr))
        (λ o. on_second_look deps state job pr t o.status) (λ s. refl)
        (λ o. on_second_look-Steps pr t o.status may_finish)

  observe_after_suspension-Checks :
      (pr : PullRequestRef) (retry : TickAction) (message : String)
      → May Wanted JobState.done
      → Checks deps state job Wanted (observe_after_suspension deps state job pr retry message)
  unfolding observe_after_suspension
  observe_after_suspension-Checks pr retry message may_finish =
      let give = give_up deps job retry message in
      answered-Checks deps state job Wanted (attempt (second_look deps state job pr give))
        (λ r. elim r [ ok t ↦ t | throw _ ↦ give ]) (second_look-Steps pr give may_finish)

  on_suspended-Checks :
      (worktree : WorktreeHandle) (head : String) (retry : TickAction) (latest : String)
      (pr : PullRequestRef) (r : Outcome (Unit {0}))
      → May Wanted JobState.done
      → Checks deps state job Wanted (on_suspended deps state job worktree head retry latest pr r)
  unfolding on_suspended
  on_suspended-Checks worktree head retry latest pr (throw message) may_finish =
      observe_after_suspension-Checks pr retry message may_finish
  on_suspended-Checks worktree head retry latest pr (ok _) may_finish =
      sync_base_for_review-Checks worktree head retry latest

  on_moved_base-Checks :
      (worktree : WorktreeHandle) (head : String) (auto_merge : Bool) (retry : TickAction)
      (latest : String)
      → (auto_merge ≡ true → May Wanted JobState.done)
      → Checks deps state job Wanted
          (on_moved_base deps state job worktree head auto_merge retry latest)
  unfolding on_moved_base
  on_moved_base-Checks worktree head false retry latest may_finish =
      let sync = sync_base_for_review deps state job worktree head retry latest in
      option-Runs deps state job Wanted Ending job.pull_request sync (λ pr. sync)
        (sync_base_for_review-Checks worktree head retry latest)
        (λ pr. sync_base_for_review-Checks worktree head retry latest)
  on_moved_base-Checks worktree head true retry latest may_finish =
      let sync = sync_base_for_review deps state job worktree head retry latest in
      let suspend : PullRequestRef → Action E (Option TickResult) = λ pr.
        attempt (perform (deps.ports.suspend_auto_merge job.task.repo pr))
        >>= on_suspended deps state job worktree head retry latest pr in
      option-Runs deps state job Wanted Ending job.pull_request sync suspend
        (sync_base_for_review-Checks worktree head retry latest)
        (λ pr.
          caught-Runs deps state job Wanted Ending (deps.ports.suspend_auto_merge job.task.repo pr)
            (on_suspended deps state job worktree head retry latest pr)
            (λ r. on_suspended-Checks worktree head retry latest pr r (may_finish refl)))

  on_latest_base-Checks :
      (worktree : WorktreeHandle) (head : String) (auto_merge : Bool) (retry : TickAction)
      (r : Outcome String)
      → (auto_merge ≡ true → May Wanted JobState.done)
      → Checks deps state job Wanted
          (on_latest_base deps state job worktree head auto_merge retry r)
  unfolding on_latest_base
  on_latest_base-Checks worktree head auto_merge retry (throw message) may_finish = λ s. inl refl
  on_latest_base-Checks worktree head auto_merge retry (ok latest) may_finish =
      if-Runs deps state job Wanted Ending (latest == job.base_sha) (pure none)
        (on_moved_base deps state job worktree head auto_merge retry latest) (λ s. inl refl)
        (on_moved_base-Checks worktree head auto_merge retry latest may_finish)

  no_worktree-Checks : Checks deps state job Wanted (no_worktree deps state job)
  unfolding no_worktree
  no_worktree-Checks =
      blocked-Checks deps state job Wanted
        (by_controller integrity_violation "base refresh requires a worktree and reviewed HEAD")
        may_block

  pub refresh_base_for_review-Checks :
      (auto_merge : Bool) (retry : TickAction)
      → (auto_merge ≡ true → May Wanted JobState.done)
      → Checks deps state job Wanted (refresh_base_for_review deps state job auto_merge retry)
  unfolding refresh_base_for_review refresh_base_at
  refresh_base_for_review-Checks auto_merge retry may_finish =
      let none_there = no_worktree deps state job in
      let head = job.head_sha otherwise "" in
      option-Runs deps state job Wanted Ending job.worktree none_there
        (λ w.
          if is_falsy job.head_sha
          then none_there
          else refresh_base_at deps state job w head auto_merge retry)
        no_worktree-Checks
        (λ w.
          if-Runs deps state job Wanted Ending (is_falsy job.head_sha) none_there
            (refresh_base_at deps state job w head auto_merge retry) no_worktree-Checks
            (caught-Runs deps state job Wanted Ending
              (deps.ports.refresh_base deps.config.local_path deps.config.base_ref)
              (on_latest_base deps state job w head auto_merge retry)
              (λ r. on_latest_base-Checks w head auto_merge retry r may_finish)))
