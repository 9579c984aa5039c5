-- ===== src/Controller/Settlement.antt =====
-- src/controller/attempt-settlement.ts: what is done with the observation of an Attempt that has ended.
use herdr_harness_lite.Controller.Action.{◌>>=◌, Action, or_else, of_outcome, or_check}
use herdr_harness_lite.Controller.Ports.{Deps, RuntimeObservation, Outcome}
use herdr_harness_lite.Model.Attempt.{
  Attempt, AttemptResult, of_reviewer, of_worker, AgentStatus, reviewer_status_eq, worker_status_eq,
  agent_status_eq,
}
use herdr_harness_lite.Base.{
  Option, String, some, none, if◌then◌else◌, ◌==◌, is_none, ◌&&◌, not, Bool,
}
use herdr_harness_lite.Controller.Integrity.{
  verify_bound_validation, verify_reviewer_integrity, by_lane,
}
use herdr_harness_lite.Model.Job.{Job, HarnessState}
use herdr_harness_lite.Controller.Context.{block, TickResult}
use herdr_harness_lite.Controller.Closing.{with_herdr_diagnostic}
use herdr_harness_lite.Model.Diagnostic.{SafeRuntimeDiagnostic}
use herdr_harness_lite.Policy.{Validation, validate_attempt_result, invalid, valid}
use herdr_harness_lite.Model.Incident.{integrity_violation, agent_blocked}
use herdr_harness_lite.Controller.Diagnostics.{result_diagnostic}
use herdr_harness_lite.Model.Snapshot.{reviewer, lane_eq}
use herdr_harness_lite.Controller.Completion.{finish_worker, reconcile_attempt_or_block}
use herdr_harness_lite.Controller.Review.{finish_reviewer}

-- The HEAD that an observed review reports.
abbrev pub reported_head : Option AttemptResult → Option String
reported_head (some (of_reviewer r)) = r.reviewed_head_sha
reported_head _ = none

module _ {E : Type 0} (deps : Deps E) where
  -- A valid result has the lane of its Attempt.
  unfoldable pub finish_valid :
      HarnessState → Job → Attempt → AttemptResult → Option String → Action E TickResult
  unfolding finish_worker finish_reviewer
  finish_valid state job a (of_worker w) diagnostic =
      finish_worker deps state job a w diagnostic w.status
  finish_valid state job a (of_reviewer r) diagnostic =
      finish_reviewer deps state job a r diagnostic r.status

  -- The diagnostic of an observation without a valid result.
  abbrev pub invalid_diagnostic : Option AttemptResult → Outcome SafeRuntimeDiagnostic
  invalid_diagnostic r =
      result_diagnostic deps.platform (if is_none r then "result_missing" else "result_identity")

  -- What is done without a valid result, once its diagnostic is made.
  unfoldable pub settle_invalid :
      HarnessState
      → Job
      → Attempt
      → Option AttemptResult
      → Bool
      → String
      → SafeRuntimeDiagnostic
      → Action E TickResult
  unfolding block reconcile_attempt_or_block
  settle_invalid state job a r is_blocked summary d =
      if is_none r && not is_blocked
      then reconcile_attempt_or_block deps state job a summary (some d)
      else block deps state job (
          by_lane (if is_blocked then agent_blocked else integrity_violation) a.lane summary r
            (some d))

  unfoldable pub finish_invalid :
      HarnessState → Job → Attempt → RuntimeObservation → String → Action E TickResult
  unfolding settle_invalid with_herdr_diagnostic
  finish_invalid state job a o reason =
      of_outcome deps (invalid_diagnostic o.result)
      >>= settle_invalid state job a o.result (o.agent_status == AgentStatus.blocked)
          (with_herdr_diagnostic reason o.diagnostic)

  unfoldable pub finish_validated :
      HarnessState → Job → Attempt → RuntimeObservation → Validation → Action E TickResult
  unfolding finish_invalid finish_valid
  finish_validated state job a o (invalid reason) = finish_invalid state job a o reason
  finish_validated state job a o (valid r) = finish_valid state job a r o.diagnostic

  unfoldable pub finish_observed_attempt :
      HarnessState → Job → Attempt → RuntimeObservation → Action E TickResult
  unfolding verify_bound_validation verify_reviewer_integrity validate_attempt_result
      finish_validated
  finish_observed_attempt state job a o =
      let rest = finish_validated state job a o (validate_attempt_result job.id a o.result) in
      if a.lane == reviewer
      then or_else
          (or_check (verify_bound_validation deps state job a)
            (verify_reviewer_integrity deps state job a (reported_head o.result) o.result))
          rest
      else rest
