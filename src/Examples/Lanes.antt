-- ===== src/Examples/Lanes.antt =====
-- Tests of the settlement of Attempts, of the diagnosis and of recoveries.
use native.Mathlib.Decide.{ℕ_discrete}
use herdr_harness_lite.Base.{filter, some, ◌≡◌, none, ◌∷◌, [], refl, In, includes, false, ◌⊎◌}
use herdr_harness_lite.Controller.Action.{now, next_id}
use herdr_harness_lite.Controller.Ports.{RuntimeObservation, ok}
use herdr_harness_lite.Controller.RecoveringSteps.{
  Recovered, apply_approved-Retries, apply_recovery-Applies,
}
use herdr_harness_lite.Controller.DeliverySteps.{Published, publish-Publishes}
use herdr_harness_lite.Controller.SoundAdvice.{Advised, run_diagnosis-Advised}
use herdr_harness_lite.Model.Attempt.{AgentHandle, Attempt, AgentStatus, AttemptPhase}
use herdr_harness_lite.Controller.Steps.{Step, StepTo}
use herdr_harness_lite.Controller.Diagnosis.{
  run_diagnosis, accept_answer, diagnose, dedupe_evidence, on_turn, record_answer, unseen_evidence,
  take_evidence,
}
use herdr_harness_lite.Model.Job.{Job, publish_ready, worker_running, recovery_approved}
use herdr_harness_lite.Controller.Advice.{Fits, dedupe_evidence-Fits}
use herdr_harness_lite.Model.Incident.{AnalystAdvice, retry_fresh_worker, hold, analyst_advice}
use herdr_harness_lite.Examples.Data.{
  worker_attempt, exhausted, blocked_job_with, deps, system, evidence, session, platform, recorded,
  worker_result, answer, approval,
}
use herdr_harness_lite.Model.Evidence.{build_evidence_pack, EvidenceItem}
use herdr_harness_lite.Controller.Delivery.{publish}
use herdr_harness_lite.Controller.SettlementSteps.{settlements, finish_observed_attempt-Settles}
use herdr_harness_lite.Controller.Applying.{apply_approved, apply_recovery}
use herdr_harness_lite.Controller.Settlement.{finish_observed_attempt}
use herdr_harness_lite.Controller.Turns.{run_diagnosis-Returns}
use herdr_harness_lite.Base.Text.{is_blank}
use herdr_harness_lite.Controller.WaitingSteps.{Waited, diagnose_or_wait-Waits}
use herdr_harness_lite.Controller.Waiting.{diagnose_or_wait}
use herdr_harness_lite.Controller.BlockedSteps.{SettledLate}

abbrev ready_job : Job
ready_job = record (blocked_job_with hold none) {
  state = publish_ready;
  active_attempt = none;
  incident = none;
  analysis = none;
}

publish_example :
    StepTo deps.platform
      (system ready_job).ledger
      ready_job
      (Published deps ready_job)
      (system ready_job).ledger
      (publish deps (system ready_job).ledger ready_job (system ready_job)).1.ledger
publish_example = publish-Publishes deps (system ready_job).ledger ready_job (system ready_job)

abbrev pane : AgentHandle
pane = record { agent_name = "pi"; pane_id = "p"; tab_id = "t"; workspace_id = "w" }

abbrev running_attempt : Attempt
running_attempt = record (worker_attempt AttemptPhase.running none) { handle = some pane }

abbrev running_job : Job
running_job = record (blocked_job_with hold none) {
  state = worker_running;
  worktree = some (record { workspace_id = "w"; path = "/worktree"; branch = "task-7" });
  active_attempt = some running_attempt;
  incident = none;
  analysis = none;
}

abbrev finished : RuntimeObservation
finished = record {
  agent_status = AgentStatus.done;
  result = some worker_result;
  diagnostic = none;
}

settle_example :
    Step deps.platform
      (system running_job).ledger
      running_job
      (settlements running_job running_attempt (some worker_result))
      (system running_job).ledger
      (finish_observed_attempt deps
        (system running_job).ledger
        running_job
        running_attempt
        finished
        (system running_job)).1.ledger
settle_example =
    finish_observed_attempt-Settles deps (system running_job).ledger running_job running_attempt
      finished (system running_job)

abbrev diagnosed_job : Job
diagnosed_job = record (blocked_job_with hold none) { analysis = none; analyst = some session }

waiting_example :
    StepTo deps.platform
      (system diagnosed_job).ledger
      diagnosed_job
      (Waited deps diagnosed_job)
      (system diagnosed_job).ledger
      (diagnose_or_wait deps
        (system diagnosed_job).ledger
        diagnosed_job
        (system diagnosed_job)).1.ledger
waiting_example =
    diagnose_or_wait-Waits deps (system diagnosed_job).ledger diagnosed_job refl
      (system diagnosed_job)

abbrev approved_job : Job
approved_job = record (blocked_job_with retry_fresh_worker (some (recorded ∷ []))) {
  state = recovery_approved;
  revision = 4;
  approval = some (record approval { basis = some analyst_advice; fingerprint = none });
}

apply_example :
    StepTo deps.platform
      (system approved_job).ledger
      approved_job
      (λ j. SettledLate deps approved_job j ⊎ Recovered deps approved_job j)
      (system approved_job).ledger
      (apply_recovery deps (system approved_job).ledger approved_job (system approved_job)).1.ledger
apply_example =
    apply_recovery-Applies deps (system approved_job).ledger approved_job (system approved_job)

retry_states_example :
    StepTo deps.platform
      (system approved_job).ledger
      approved_job
      (Recovered deps approved_job)
      (system approved_job).ledger
      (apply_approved deps (system approved_job).ledger approved_job (system approved_job)).1.ledger
retry_states_example =
    apply_approved-Retries deps (system approved_job).ledger approved_job (system approved_job)

dedupe_example :
    Fits (dedupe_evidence (evidence ∷ evidence ∷ []))
    × ((x : EvidenceItem)
        → In x (dedupe_evidence (evidence ∷ evidence ∷ []))
        → In x (evidence ∷ evidence ∷ []) × (is_blank x.reference ≡ false))
dedupe_example = dedupe_evidence-Fits (evidence ∷ evidence ∷ [])

returned_advice_example :
    (a : AnalystAdvice) × ((run_diagnosis deps diagnosed_job exhausted session
        (system diagnosed_job)).0
      ≡ ok a)
returned_advice_example =
    run_diagnosis-Returns deps diagnosed_job exhausted session (λ e. (_, refl, tt))
      (λ pack turn e. (_, refl, tt)) (λ requests e. (_, refl, tt)) (system diagnosed_job)

abbrev answered_advice : AnalystAdvice
answered_advice =
    accept_answer exhausted
      (build_evidence_pack platform exhausted "job-1" 3 "digest" (evidence ∷ []) []) answer
      "analysis" "2026-01-02T00:00:00Z"

-- The run of the test's ports answers the advice on one item of evidence.
advice_answered :
    (run_diagnosis deps diagnosed_job exhausted session (system diagnosed_job)).0
    ≡ ok answered_advice
unfolding run_diagnosis diagnose on_turn record_answer now next_id dedupe_evidence unseen_evidence
    take_evidence includes is_blank ℕ_discrete filter
advice_answered = refl

sound_advice_example : Advised deps diagnosed_job exhausted answered_advice
sound_advice_example =
    run_diagnosis-Advised deps diagnosed_job exhausted session (system diagnosed_job)
      answered_advice advice_answered
