-- ===== src/Controller/Closing.antt =====
-- src/controller/context.ts: the runtime of an Attempt and the closing of its pane;
-- src/controller/attempt-settlement.ts and helpers.ts: what a settled Attempt is.
use herdr_harness_lite.Controller.Action.{
  ◌>>=◌, ◌>>◌, Action, perform, pure, require_some, attempt, fail,
}
use herdr_harness_lite.Controller.Ports.{Deps, CloseReason, Outcome, Runtime, ok, throw}
use herdr_harness_lite.Model.Attempt.{Attempt, AgentHandle, AttemptResult, settled}
use herdr_harness_lite.Base.{
  String, Bool, Option, if◌then◌else◌, none, false, some, ◌==◌, ◌otherwise◌,
}
use herdr_harness_lite.Model.Job.{Job}
use herdr_harness_lite.Controller.Context.{TickResult, result, attempt_completed}
use herdr_harness_lite.Policy.{is_falsy}
use herdr_harness_lite.Base.Text.{◌<>◌}
use herdr_harness_lite.Model.Snapshot.{pi_rpc, attempt_runtime_adapter_eq}
use herdr_harness_lite.Model.Encode.{lane_text}

-- `settleAttempt`
unfoldable pub settle_attempt : Attempt → Option AttemptResult → String → Attempt
settle_attempt a result at = record a {
  phase = settled;
  result = result;
  completed_at = some (a.completed_at otherwise at);
}

-- `withHerdrDiagnostic`: an empty diagnostic is left out too.
unfoldable pub with_herdr_diagnostic : String → Option String → String
with_herdr_diagnostic summary diagnostic =
    if is_falsy diagnostic
    then summary
    else summary <> "\nHerdr diagnostics (untrusted):\n" <> (diagnostic otherwise "")

abbrev pub runs_on_pi_rpc : Attempt → Bool
runs_on_pi_rpc a = elim a.execution_snapshot [ none ↦ false | some s ↦ s.adapter == pi_rpc ]

module _ {E : Type 0} (deps : Deps E) where
  unfoldable pub runtime_for : Attempt → Action E (Runtime E)
  runtime_for a =
      if runs_on_pi_rpc a
      then require_some deps.ports.pi_rpc_runtime "Pi RPC adapter is unavailable"
      else pure deps.ports.herdr

  -- `closeAttempt` once the runtime is chosen; that of Herdr closes its own pane.
  unfoldable pub close_in : Attempt → AgentHandle → CloseReason → Runtime E → Action E (Unit {0})
  close_in a handle reason runtime = elim runtime.terminate [
    | none ↦ perform (deps.ports.close_pane handle)
    | some terminate ↦
        perform (terminate handle a reason)
        >> (if runs_on_pi_rpc a then perform (deps.ports.close_pane handle) else pure tt)
  ]

  unfoldable pub close_attempt : Attempt → CloseReason → Action E (Unit {0})
  unfolding runtime_for close_in
  close_attempt a reason = elim a.handle [
    | none ↦ fail "attempt has no pane identity"
    | some handle ↦ runtime_for a >>= close_in a handle reason
  ]

  abbrev pub on_closed : Job → Attempt → Outcome (Unit {0}) → Action E (Option TickResult)
  on_closed job a (ok _) = pure none
  on_closed job a (throw message) = pure (
      some (
        result false attempt_completed job
          (lane_text a.lane <> " pane close is not confirmed: " <> message)))

  unfoldable pub close_completed_attempt : Job → Attempt → Action E (Option TickResult)
  unfolding close_attempt
  close_completed_attempt job a = elim a.handle [
    | none ↦ pure (
        some (
          result false attempt_completed job
            (lane_text a.lane <> " pane identity is missing; completion was not recorded")))
    | some handle ↦ attempt (close_attempt a CloseReason.completed) >>= on_closed job a
  ]
