-- ===== src/Controller/CompletionSteps.antt =====
-- src/controller/attempt-settlement.ts and attempt-reconciliation.ts: what a Worker's result, or none, does
-- to the ledger.
use herdr_harness_lite.Controller.Action.{Action, or_else, ◌>>=◌, perform, now}
use herdr_harness_lite.Controller.Ports.{Deps, WorkerVerification, worker_refused, worker_verified}
use herdr_harness_lite.Model.Job.{
  Job, HarnessState, blocked, max_attempt_reconciliations, reviewer_ready, job_state_eq,
  WorktreeHandle,
}
use herdr_harness_lite.Model.Attempt.{
  Attempt, WorkerResult, of_worker, WorkerStatus, worker_status_eq, reviewer_status_eq,
  agent_status_eq,
}
use herdr_harness_lite.Base.{Option, if◌then◌else◌, leb, ◌≡◌, true, String, some, false, Bool, refl}
use herdr_harness_lite.Controller.Completion.{
  reconciliations, reconcile_attempt_or_block, on_worker_verified, settle_worker, worker_done,
  exhausted_block, observed_again, complete_worker, refuse_worker, finish_worker, stop_worker,
  check_worker, worker_check,
}
use herdr_harness_lite.Controller.Context.{TickResult, block}
use herdr_harness_lite.Controller.Steps.{
  Steps, or_else-Steps, Quiet→Runs, goes_on, option-Runs, Any, if-Runs, bind-Runs, May,
}
use herdr_harness_lite.Controller.Saves.{timed-Steps, evolved-Steps, block-Steps}
use herdr_harness_lite.Model.Diagnostic.{SafeRuntimeDiagnostic}
use herdr_harness_lite.Controller.Closing.{close_completed_attempt, settle_attempt}
use herdr_harness_lite.Controller.IntegritySteps.{block_with-Steps}
use herdr_harness_lite.Controller.ClosingSteps.{close_completed_attempt-Quiet}
use herdr_harness_lite.Policy.{is_falsy}
use herdr_harness_lite.Model.Snapshot.{lane_eq}

module _ {E : Type 0} (deps : Deps E) (state : HarnessState) (job : Job) (Wanted : Job → Type 0)
    (may_block : May Wanted blocked) where
  -- What follows a pane that is closed.
  pub closed-Steps :
      (a : Attempt) (k : Action E TickResult)
      → Steps deps state job Wanted k
      → Steps deps state job Wanted (or_else (close_completed_attempt deps job a) k)
  closed-Steps a k st =
      or_else-Steps deps state job Wanted (close_completed_attempt deps job a) k
        (Quiet→Runs deps state job Wanted (λ r. goes_on r ≡ false)
          (close_completed_attempt deps job a) (close_completed_attempt-Quiet deps job a))
        st

  -- A branch whose rule may use the test.
  pub tested-Steps :
      (test : Bool) (m k : Action E TickResult)
      → Steps deps state job Wanted m
      → (test ≡ false → Steps deps state job Wanted k)
      → Steps deps state job Wanted (if test then m else k)
  tested-Steps true m k sm sk = sm
  tested-Steps false m k sm sk = sk refl

  pub reconcile_attempt_or_block-Steps :
      (a : Attempt) (summary : String) (d : Option SafeRuntimeDiagnostic)
      → (leb max_attempt_reconciliations (reconciliations a) ≡ false → May Wanted job.state)
      → Steps deps state job Wanted (reconcile_attempt_or_block deps state job a summary d)
  unfolding reconcile_attempt_or_block
  reconcile_attempt_or_block-Steps a summary d may_stay =
      let give_up : String → Action E TickResult =
        λ at. block deps state job (exhausted_block deps job a summary d at) in
      tested-Steps (leb max_attempt_reconciliations (reconciliations a)) (now deps >>= give_up) _
        (timed-Steps deps state job Wanted give_up
          (λ at. block-Steps deps state job Wanted _ may_block))
        (λ e. evolved-Steps deps state job Wanted (observed_again a summary) _ (may_stay e))

  on_worker_verified-Steps :
      (a : Attempt) (w : WorkerResult) (v : WorkerVerification)
      → May Wanted reviewer_ready
      → Steps deps state job Wanted (on_worker_verified deps state job a w v)
  unfolding on_worker_verified settle_worker
  on_worker_verified-Steps a w (worker_refused class reason) may_review =
      block_with-Steps deps state job Wanted may_block _ _
  on_worker_verified-Steps a w (worker_verified head) may_review =
      closed-Steps a (now deps >>= settle_worker deps state job a w head) (
        timed-Steps deps state job Wanted (settle_worker deps state job a w head) (λ settled_at.
          evolved-Steps deps state job Wanted
            (worker_done (settle_attempt a (some (of_worker w)) settled_at) head) _ may_review))

  complete_worker-Steps :
      (a : Attempt) (w : WorkerResult)
      → May Wanted reviewer_ready
      → Steps deps state job Wanted (complete_worker deps state job a w)
  unfolding complete_worker
  complete_worker-Steps a w may_review =
      let refuse : Action E TickResult = refuse_worker deps state job w in
      let test : WorktreeHandle → Action E TickResult =
        λ tree. if is_falsy w.head_sha then refuse else check_worker deps state job a w tree in
      let refused = block_with-Steps deps state job Wanted may_block _ _ in
      option-Runs deps state job Wanted Any job.worktree refuse test refused (λ tree.
        if-Runs deps state job Wanted Any (is_falsy w.head_sha) refuse
          (check_worker deps state job a w tree) refused
          (bind-Runs deps state job Wanted Any
            (perform (deps.ports.verify_worker (worker_check deps job a w tree)))
            (on_worker_verified deps state job a w) (λ s. refl)
            (λ v. on_worker_verified-Steps a w v may_review)))

  pub finish_worker-Steps :
      (a : Attempt) (w : WorkerResult) (d : Option String) (status : WorkerStatus)
      → (status ≡ WorkerStatus.completed → May Wanted reviewer_ready)
      → Steps deps state job Wanted (finish_worker deps state job a w d status)
  unfolding finish_worker stop_worker
  finish_worker-Steps a w d WorkerStatus.blocked may_review =
      block-Steps deps state job Wanted _ may_block
  finish_worker-Steps a w d WorkerStatus.failed may_review =
      block-Steps deps state job Wanted _ may_block
  finish_worker-Steps a w d WorkerStatus.completed may_review =
      complete_worker-Steps a w (may_review refl)
