-- ===== src/Controller/Completion.antt =====
-- src/controller/attempt-settlement.ts and attempt-reconciliation.ts: what is done with a Worker's result, and
-- without a result.
use herdr_harness_lite.Controller.Action.{◌>>=◌, ◌>>◌, Action, pure, or_else, perform, now}
use herdr_harness_lite.Controller.Ports.{
  Deps, WorkerVerification, worker_refused, worker_verified, WorkerCheck,
}
use herdr_harness_lite.Model.Attempt.{
  Attempt, WorkerResult, of_worker, reviewer_status_eq, WorkerStatus, worker_status_eq,
  agent_status_eq,
}
use herdr_harness_lite.Base.{
  ℕ, Option, String, ◌otherwise◌, some, ◌+◌, none, if◌then◌else◌, ◌++◌, ◌∷◌, leb, [], true,
}
use herdr_harness_lite.Controller.Integrity.{by_lane, block_with, allowed_paths}
use herdr_harness_lite.Model.Job.{
  Job, HarnessState, reviewer_ready, evolve_job, max_attempt_reconciliations, WorktreeHandle,
}
use herdr_harness_lite.Controller.Context.{
  block, save_job, BlockInput, TickResult, result, attempt_reconciling, attempt_completed,
}
use herdr_harness_lite.Controller.Closing.{
  settle_attempt, with_herdr_diagnostic, close_completed_attempt,
}
use herdr_harness_lite.Model.Diagnostic.{SafeRuntimeDiagnostic}
use herdr_harness_lite.Policy.{is_falsy}
use herdr_harness_lite.Model.Incident.{
  infrastructure_exhausted, of_lane, BlockClass, integrity_violation, agent_decision, agent_blocked,
}
use herdr_harness_lite.Controller.Diagnostics.{result_diagnostic, git_diagnostic}
use herdr_harness_lite.Model.Snapshot.{Lane, lane_eq}
use herdr_harness_lite.Policy.Automatic.{automatic_recovery_candidate_for_attempt}
use herdr_harness_lite.Base.Text.{◌<>◌}

-- The Job whose Worker has completed at a HEAD that Git has verified.
abbrev pub worker_done : Attempt → String → Job → Job
worker_done settled head j = record j {
  state = reviewer_ready;
  head_sha = some head;
  active_attempt = none;
  attempts = j.attempts ++ (settled ∷ []);
  pending_handoff = none;
  last_error = none;
}

abbrev pub reconciliations : Attempt → ℕ
reconciliations a = a.reconciliation_attempts otherwise 0

-- The Job whose Attempt is observed once more.
abbrev pub observed_again : Attempt → String → Job → Job
observed_again a summary j = record j {
  active_attempt = some (record a { reconciliation_attempts = some (reconciliations a + 1) });
  last_error = some summary;
}

module _ {E : Type 0} (deps : Deps E) where
  abbrev pub exhausted_block :
      Job → Attempt → String → Option SafeRuntimeDiagnostic → String → BlockInput
  exhausted_block job a summary diagnostic at = record {
    block_class = infrastructure_exhausted;
    lane = of_lane a.lane;
    summary = summary;
    attempt_result = none;
    ci_failure = none;
    automatic_recovery =
        automatic_recovery_candidate_for_attempt deps.platform job a diagnostic (some at);
    runtime_diagnostic = diagnostic;
  }

  unfoldable pub reconcile_attempt_or_block :
      HarnessState → Job → Attempt → String → Option SafeRuntimeDiagnostic → Action E TickResult
  unfolding block save_job
  reconcile_attempt_or_block state job a summary diagnostic =
      let give_up : Action E TickResult =
        now deps >>= λ at. block deps state job (exhausted_block job a summary diagnostic at) in
      let observe_again : Action E TickResult = (do
        at ← now deps
        save_job deps state job (evolve_job job at (observed_again a summary))
        pure (
            result true attempt_reconciling job
              (summary <> "; observing the same attempt once more"))) in
      if leb max_attempt_reconciliations (reconciliations a) then give_up else observe_again

  unfoldable pub settle_worker :
      HarnessState → Job → Attempt → WorkerResult → String → String → Action E TickResult
  unfolding save_job settle_attempt
  settle_worker state job a worker head settled_at = do
    at ← now deps
    save_job deps state job (
        evolve_job job at
          (worker_done (settle_attempt a (some (of_worker worker)) settled_at) head))
    pure (
        result true attempt_completed job
          ("worker completed at " <> head <> "; fresh review required"))

  unfoldable pub on_worker_verified :
      HarnessState → Job → Attempt → WorkerResult → WorkerVerification → Action E TickResult
  unfolding block close_completed_attempt settle_worker
  on_worker_verified state job a worker (worker_refused class reason) =
      block_with deps state job (git_diagnostic deps.platform)
        (λ d. by_lane class Lane.worker reason (some (of_worker worker)) (some d))
  on_worker_verified state job a worker (worker_verified head) =
      or_else (close_completed_attempt deps job a)
        (now deps >>= settle_worker state job a worker head)

  abbrev pub refuse_worker : HarnessState → Job → WorkerResult → Action E TickResult
  refuse_worker state job worker =
      block_with deps state job (result_diagnostic deps.platform "result_identity") (λ d.
        by_lane integrity_violation Lane.worker "worker completion lacks verifiable Git provenance"
          (some (of_worker worker)) (some d))

  abbrev pub worker_check : Job → Attempt → WorkerResult → WorktreeHandle → WorkerCheck
  worker_check job a worker w = record {
    worktree = w;
    branch = job.branch;
    base_sha = a.base_sha;
    reported_head_sha = worker.head_sha otherwise "";
    expected_remote_head_sha = a.expected_remote_head_sha;
    allowed_result_paths = allowed_paths deps.platform job w a;
  }

  abbrev pub check_worker :
      HarnessState → Job → Attempt → WorkerResult → WorktreeHandle → Action E TickResult
  check_worker state job a worker w =
      perform (deps.ports.verify_worker (worker_check job a worker w))
      >>= on_worker_verified state job a worker

  unfoldable pub complete_worker : HarnessState → Job → Attempt → WorkerResult → Action E TickResult
  unfolding block on_worker_verified
  complete_worker state job a worker = elim job.worktree [
    | none ↦ refuse_worker state job worker
    | some w ↦
        if is_falsy worker.head_sha
        then refuse_worker state job worker
        else check_worker state job a worker w
  ]

  unfoldable pub stop_worker :
      HarnessState → Job → WorkerResult → Option String → BlockClass → Action E TickResult
  unfolding block with_herdr_diagnostic
  stop_worker state job worker diagnostic class = block deps state job (
      by_lane class Lane.worker (with_herdr_diagnostic worker.summary diagnostic)
        (some (of_worker worker)) none)

  -- `finishWorker`, by the status of the result.
  unfoldable pub finish_worker :
      HarnessState
      → Job
      → Attempt
      → WorkerResult
      → Option String
      → WorkerStatus
      → Action E TickResult
  unfolding stop_worker complete_worker
  finish_worker state job a worker diagnostic WorkerStatus.blocked =
      stop_worker state job worker diagnostic agent_decision
  finish_worker state job a worker diagnostic WorkerStatus.failed =
      stop_worker state job worker diagnostic agent_blocked
  finish_worker state job a worker diagnostic WorkerStatus.completed =
      complete_worker state job a worker
