-- ===== src/Examples/Runs.antt =====
-- Tests of the store, of the operator's gates and of the observation of a merge.
use herdr_harness_lite.Examples.Data.{deps, request, system, blocked_job_with}
use herdr_harness_lite.Model.Job.{
  Job, awaiting_merge, TerminalState, HarnessState, JobState, PullRequestRef,
}
use herdr_harness_lite.Controller.Store.{Committed, Refused, save-cases}
use herdr_harness_lite.Controller.Approval.{
  DecisionResolved, AdviceApproved, approve_recovery-cases, resolve_decision-cases,
}
use herdr_harness_lite.Controller.Steps.{Step}
use herdr_harness_lite.Controller.Delivery.{observe_merge}
use herdr_harness_lite.Model.Incident.{retry_fresh_worker, hold}
use herdr_harness_lite.Controller.MergeSteps.{observe_merge-Steps}
use herdr_harness_lite.Base.{none, some, ◌⊎◌, refl, [], ◌∷◌}
use herdr_harness_lite.Controller.Gates.{approve_recovery, resolve_decision}
use herdr_harness_lite.Controller.Action.{save, validate_state, System}
use herdr_harness_lite.Controller.Once.{approved_once}
use herdr_harness_lite.Controller.Commits.{save-commits}

save_example :
    Committed deps
      (system (blocked_job_with hold none)).ledger
      (some 3)
      (system (blocked_job_with hold none))
      (save deps
        (system (blocked_job_with hold none)).ledger
        (some 3)
        (system (blocked_job_with hold none)))
    ⊎ Refused (system (blocked_job_with hold none)) (
        save deps
          (system (blocked_job_with hold none)).ledger
          (some 3)
          (system (blocked_job_with hold none)))
save_example =
    save-cases deps (system (blocked_job_with hold none)).ledger (some 3)
      (system (blocked_job_with hold none))

approve_example :
    AdviceApproved deps request
      (system (blocked_job_with retry_fresh_worker none))
      (approve_recovery deps request (system (blocked_job_with retry_fresh_worker none)))
    ⊎ Refused
        (system (blocked_job_with retry_fresh_worker none))
        (approve_recovery deps request (system (blocked_job_with retry_fresh_worker none)))
approve_example =
    approve_recovery-cases deps request (system (blocked_job_with retry_fresh_worker none))

resolve_example :
    DecisionResolved deps request
      (system (blocked_job_with hold none))
      (resolve_decision deps request (system (blocked_job_with hold none)))
    ⊎ Refused
        (system (blocked_job_with hold none))
        (resolve_decision deps request (system (blocked_job_with hold none)))
resolve_example = resolve_decision-cases deps request (system (blocked_job_with hold none))

abbrev published_job : Job
published_job = record (blocked_job_with hold none) {
  state = awaiting_merge;
  active_attempt = none;
  incident = none;
  analysis = none;
  pull_request = some (record { number = 5; url = "url"; head_sha = "head" });
}

abbrev published_pr : PullRequestRef
published_pr = record { number = 5; url = "url"; head_sha = "head" }

observe_example :
    Step deps.platform
      (system published_job).ledger
      published_job
      (JobState.done ∷ [])
      (system published_job).ledger
      (observe_merge deps
        (system published_job).ledger
        published_job
        (system published_job)).1.ledger
observe_example =
    observe_merge-Steps deps (system published_job).ledger published_job published_pr
      (system published_job) refl

once_example :
    Refused
      (system (blocked_job_with retry_fresh_worker none))
      (approve_recovery deps request (system (blocked_job_with retry_fresh_worker none)))
    ⊎ Refused
        (approve_recovery deps request (system (blocked_job_with retry_fresh_worker none))).1
        (approve_recovery deps request
          (approve_recovery deps request (system (blocked_job_with retry_fresh_worker none))).1)
once_example = approved_once deps request (system (blocked_job_with retry_fresh_worker none))

abbrev idle_system : System (Unit {0})
idle_system = record { ledger = record { active_job = none; terminal_jobs = [] }; env = tt }

abbrev archived_state : HarnessState
archived_state = record {
  active_job = none;
  terminal_jobs =
      record {
        id = "job-1";
        repo = "owner/repo";
        issue_number = 7;
        state = TerminalState.done;
        finished_at = "2026-01-01T00:00:00Z";
        cancellation = none;
        reassessments = some [];
      }
      ∷ [];
}

commit_example :
    Committed deps archived_state none idle_system (save deps archived_state none idle_system)
unfolding validate_state
commit_example =
    save-commits deps archived_state (λ e. (tt, refl, tt)) (λ e. (tt, refl, tt))
      (λ e. (tt, refl, tt)) idle_system refl refl
