-- ===== src/Examples/Lifecycle.antt =====
-- Tests of the life of a task: its selection, its claim and its archive.
use herdr_harness_lite.Controller.Action.{System}
use herdr_harness_lite.Controller.Archive.{archive}
use herdr_harness_lite.Controller.Steps.{StepTo}
use herdr_harness_lite.Model.Job.{Job, JobState, claimed}
use herdr_harness_lite.Controller.Lifecycle.{select_job}
use herdr_harness_lite.Base.{none, ◌≡◌, [], ◌⊎◌, false, ◌∷◌}
use herdr_harness_lite.Examples.Data.{deps, blocked_job_with, system, ready_issue}
use herdr_harness_lite.Model.Incident.{hold}
use herdr_harness_lite.Controller.Claim.{advance_claim}
use herdr_harness_lite.Controller.Taking.{Taken, select_job-Takes}
use herdr_harness_lite.Controller.Slot.{Freed, archive-Frees}
use herdr_harness_lite.Controller.ClaimSteps.{Advances, advance_claim-Advances}
use herdr_harness_lite.Controller.Ports.{ok}

abbrev claimed_job : Job
claimed_job = record (blocked_job_with hold none) {
  state = claimed;
  claim_confirmed = false;
  active_attempt = none;
  incident = none;
  analysis = none;
}

claim_example :
    StepTo deps.platform
      (system claimed_job).ledger
      claimed_job
      (Advances deps (system claimed_job).ledger claimed_job)
      (system claimed_job).ledger
      (advance_claim deps (system claimed_job).ledger claimed_job (system claimed_job)).1.ledger
claim_example =
    advance_claim-Advances deps (system claimed_job).ledger claimed_job (system claimed_job)

abbrev done_job : Job
done_job = record claimed_job { state = JobState.done }

archive_example :
    ((archive deps (system done_job).ledger done_job (system done_job)).1.ledger
      ≡ (system done_job).ledger)
    ⊎ Freed deps
        (system done_job).ledger
        done_job
        (system done_job).ledger
        (archive deps (system done_job).ledger done_job (system done_job)).1.ledger
archive_example = archive-Frees deps (system done_job).ledger done_job (system done_job)

abbrev empty_system : System (Unit {0})
empty_system = record { ledger = record { active_job = none; terminal_jobs = [] }; env = tt }

select_example :
    ((select_job deps empty_system.ledger empty_system).1.ledger ≡ empty_system.ledger)
    ⊎ Taken deps empty_system.ledger
        (ok (ready_issue 7 ∷ []))
        empty_system.ledger
        (select_job deps empty_system.ledger empty_system).1.ledger
select_example = select_job-Takes deps empty_system.ledger empty_system
