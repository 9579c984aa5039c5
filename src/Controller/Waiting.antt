-- ===== src/Controller/Waiting.antt =====
-- src/controller/recovery-flow.ts: `diagnoseOrWait`, the tick of a blocked Job.
use herdr_harness_lite.Controller.Action.{
  ◌>>=◌, ◌>>◌, Action, or_else, attempt, pure, now, fail, next_id,
}
use herdr_harness_lite.Model.Incident.{
  Incident, AnalystAdvice, hold, rule_of, provider_transient, provider_pre_side_effect_transient,
  automatic_recovery_rule_eq, pre_dispatch, same_head,
}
use herdr_harness_lite.Policy.Automatic.{
  Authorized, automatic_recovery_for, automatic_recovery_backoff_pending,
}
use herdr_harness_lite.Controller.Ports.{Deps, Outcome, ok, throw}
use herdr_harness_lite.Base.{String, Bool, Option, some, ◌==◌, [], none, if◌then◌else◌, ◌∷◌, true}
use herdr_harness_lite.Model.Job.{HarnessState, Job, AnalystSession, evolve_job}
use herdr_harness_lite.Controller.Blocked.{reconcile_late, reconcile_blocked_ci}
use herdr_harness_lite.Controller.Diagnosis.{run_diagnosis}
use herdr_harness_lite.Controller.Boundary.{authorize_automatic_recovery}
use herdr_harness_lite.Controller.Context.{
  TickResult, save_job, result, analysis_recorded, waiting_for_approval, automatic_recovery_backoff,
}
use herdr_harness_lite.Base.Text.{◌<>◌}
use herdr_harness_lite.Model.Encode.{action_text}

-- The advice that is recorded when the diagnosis throws.
unfoldable pub failed_advice : Incident → String → String → String → AnalystAdvice
failed_advice incident message id created_at = record {
  id = id;
  incident_id = incident.id;
  evidence_digest = incident.evidence_digest;
  action = hold;
  summary = "Analyst diagnosis failed closed: " <> message;
  resolution_brief = "";
  evidence_refs = [];
  unknowns = message ∷ [];
  diagnosis = none;
  created_at = created_at;
}

abbrev pub is_provider_rule : Authorized → Bool
is_provider_rule a = rule_of a.candidate == provider_pre_side_effect_transient

module _ {E : Type 0} (deps : Deps E) where
  unfoldable pub on_diagnosed : Incident → Outcome AnalystAdvice → Action E AnalystAdvice
  unfolding failed_advice
  on_diagnosed incident (ok advice) = pure advice
  on_diagnosed incident (throw message) = do
    id ← next_id deps "analysis"
    created_at ← now deps
    pure (failed_advice incident message id created_at)

  -- The advice of `runDiagnosis`, or that it failed.
  unfoldable pub diagnose_safely : Job → Incident → AnalystSession → Action E AnalystAdvice
  unfolding run_diagnosis on_diagnosed
  diagnose_safely job incident session =
      attempt (run_diagnosis deps job incident session) >>= on_diagnosed incident

  abbrev pub analysed : AnalystAdvice → Job → Job
  analysed advice j = record j { analysis = some advice }

  -- What is done with fresh advice, at the time of its diagnosis.
  unfoldable pub use_advice :
      HarnessState → Job → Incident → AnalystAdvice → String → Action E TickResult
  unfolding automatic_recovery_for authorize_automatic_recovery save_job
  use_advice state job incident advice at =
      elim (automatic_recovery_for deps.platform job (some advice) (some at)) [
        | some automatic ↦
            authorize_automatic_recovery deps state job incident (some advice) automatic at
        | none ↦
            save_job deps state job (evolve_job job at (analysed advice))
            >> pure (
                result true analysis_recorded job (
                  "Analyst advice "
                  <> advice.id
                  <> " recorded with action="
                  <> action_text advice.action))
      ]

  -- What is done with the advice that the Job has.
  unfoldable pub use_analysis :
      HarnessState → Job → Incident → AnalystAdvice → String → Action E TickResult
  unfolding automatic_recovery_for authorize_automatic_recovery
  use_analysis state job incident advice at =
      elim (automatic_recovery_for deps.platform job (some advice) (some at)) [
        | some automatic ↦
            authorize_automatic_recovery deps state job incident (some advice) automatic at
        | none ↦ pure (
            result true waiting_for_approval job
              ("analysis " <> advice.id <> " is ready; human approval is required"))
      ]

  unfoldable pub ask_analyst : HarnessState → Job → Incident → AnalystSession → Action E TickResult
  unfolding diagnose_safely use_advice
  ask_analyst state job incident session = diagnose_safely job incident session >>= λ advice.
      now deps >>= use_advice state job incident advice

  unfoldable pub analyse : HarnessState → Job → Incident → String → Action E TickResult
  unfolding use_analysis ask_analyst
  analyse state job incident at = elim job.analysis [
    | some advice ↦ use_analysis state job incident advice at
    | none ↦ elim job.analyst [
      | none ↦ pure (
          result true waiting_for_approval job
            "Analyst is unavailable; incident can only be held or cancelled")
      | some session ↦ ask_analyst state job incident session
    ]
  ]

  -- The time from which the Provider's candidate may be used, if it is waited for.
  unfoldable pub backoff_until : Job → Incident → String → Option String
  unfolding automatic_recovery_backoff_pending
  backoff_until job incident at = elim incident.automatic_recovery [
    | some (provider_transient f scope) ↦
        if automatic_recovery_backoff_pending deps.platform job none at
        then some scope.not_before
        else none
    | some (pre_dispatch f) ↦ none
    | some (same_head f) ↦ none
    | none ↦ none
  ]

  abbrev pub wait_or_analyse :
      HarnessState → Job → Incident → String → Option String → Action E TickResult
  wait_or_analyse state job incident at (some until) = pure (
      result true automatic_recovery_backoff job
        ("automatic Provider recovery is waiting until " <> until))
  wait_or_analyse state job incident at none = analyse state job incident at

  unfoldable pub decide : HarnessState → Job → Incident → String → Action E TickResult
  unfolding automatic_recovery_for authorize_automatic_recovery backoff_until analyse
  decide state job incident at =
      let wait = wait_or_analyse state job incident at (backoff_until job incident at) in
      elim (automatic_recovery_for deps.platform job none (some at)) [
        | none ↦ wait
        | some automatic ↦
            if is_provider_rule automatic
            then authorize_automatic_recovery deps state job incident none automatic at
            else wait
      ]

  unfoldable pub diagnose_incident : HarnessState → Job → Action E TickResult
  unfolding decide
  diagnose_incident state job = elim job.incident [
    | none ↦ fail "blocked job has no incident"
    | some incident ↦ now deps >>= decide state job incident
  ]

  unfoldable pub diagnose_or_wait : HarnessState → Job → Action E TickResult
  unfolding reconcile_late reconcile_blocked_ci diagnose_incident
  diagnose_or_wait state job =
      or_else (reconcile_late deps state job)
        (or_else (reconcile_blocked_ci deps state job) (diagnose_incident state job))
