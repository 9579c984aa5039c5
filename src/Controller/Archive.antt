-- ===== src/Controller/Archive.antt =====
-- src/controller/task-lifecycle.ts: `archive`, the tick of a Job that is done or cancelled.
use herdr_harness_lite.Controller.Action.{
  ◌>>=◌, ◌>>◌, Action, save, perform, attempt, or_else, pure,
}
use herdr_harness_lite.Controller.Ports.{Deps, Outcome, ok, throw, CloseReason}
use herdr_harness_lite.Model.Job.{
  HarnessState, Job, JobState, TerminalState, TerminalJob, job_state_eq,
}
use herdr_harness_lite.Base.{
  List, String, if◌then◌else◌, none, Option, some, ◌==◌, ◌otherwise◌, some_of, ◌++◌, is_none, [],
  true, false, ◌∷◌, string_eq,
}
use herdr_harness_lite.Controller.Closing.{close_attempt}
use herdr_harness_lite.Controller.Context.{TickResult, result, archived}
use herdr_harness_lite.Base.Text.{◌<>◌}

-- The terminal form of a Job that is done or cancelled.
abbrev terminal_state : JobState → TerminalState
terminal_state state =
    if state == JobState.cancelled then TerminalState.cancelled else TerminalState.done

unfoldable pub terminal_job : Job → TerminalJob
terminal_job job = record {
  id = job.id;
  repo = job.task.repo;
  issue_number = job.task.issue_number;
  state = terminal_state job.state;
  finished_at = job.updated_at;
  cancellation = job.cancellation;
  reassessments = some (job.reassessments otherwise []);
}

-- The terminal Jobs with that of the Job, which is added once.
unfoldable pub terminal_jobs_with : HarnessState → Job → List TerminalJob
unfolding terminal_job
terminal_jobs_with state job =
    if some_of (λ t. t.id == job.id) state.terminal_jobs
    then state.terminal_jobs
    else state.terminal_jobs ++ (terminal_job job ∷ [])

module _ {E : Type 0} (deps : Deps E) where
  abbrev pub close_cancelled : Job → Action E (Unit {0})
  close_cancelled job = elim job.active_attempt [
    | none ↦ pure tt
    | some a ↦ if is_none a.handle then pure tt else close_attempt deps a CloseReason.cancelled
  ]

  -- What a cancelled Job gives back.
  unfoldable pub give_back : Job → Action E (Unit {0})
  unfolding close_attempt
  give_back job =
      close_cancelled job
      >> perform (
          deps.ports.requeue_issue deps.config.repo job.task.issue_number deps.config.claim_label
            deps.config.ready_label)

  -- The failure of a call, as the end of the archive with a message.
  abbrev pub ended_by : Job → String → Outcome (Unit {0}) → Action E (Option TickResult)
  ended_by job text (ok _) = pure none
  ended_by job text (throw message) = pure (some (result false archived job (text <> message)))

  unfoldable pub requeue_cancelled : Job → Action E (Option TickResult)
  unfolding give_back
  requeue_cancelled job =
      if job.state == JobState.cancelled
      then attempt (give_back job) >>= ended_by job "cancelled job could not be requeued safely: "
      else pure none

  unfoldable pub close_analyst : Job → Action E (Option TickResult)
  close_analyst job =
      attempt (perform (deps.ports.close_analyst job.id job.task.digest job.analyst))
      >>= ended_by job "Codex Analyst could not be closed safely: "

  abbrev pub warning : Outcome (Unit {0}) → Action E String
  warning (ok _) = pure ""
  warning (throw message) = pure ("; warning: claim label cleanup failed: " <> message)

  -- The release of the claim of a Job that is done, and the warning of its failure.
  unfoldable pub release_claim : Job → Action E String
  release_claim job =
      if job.state == JobState.done
      then attempt (
          perform (
            deps.ports.release_issue_claim deps.config.repo job.task.issue_number
              deps.config.claim_label))
        >>= warning
      else pure ""

  unfoldable pub free_slot : HarnessState → Job → String → Action E TickResult
  unfolding save terminal_jobs_with
  free_slot state job text =
      save deps (record { active_job = none; terminal_jobs = terminal_jobs_with state job })
        (some job.revision)
      >> pure (
          result true archived job (
            (if job.state == JobState.cancelled then "cancelled" else "done")
            <> " job archived; the slot is free"
            <> text))

  unfoldable pub archive : HarnessState → Job → Action E TickResult
  unfolding requeue_cancelled close_analyst release_claim free_slot
  archive state job =
      or_else (requeue_cancelled job)
        (or_else (close_analyst job) (release_claim job >>= free_slot state job))
