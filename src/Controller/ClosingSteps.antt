-- ===== src/Controller/ClosingSteps.antt =====
-- src/controller/context.ts, attempt-settlement.ts and attempt-reconciliation.ts: closing an Attempt's pane
-- leaves the ledger alone.
use herdr_harness_lite.Controller.Action.{◌>>=◌, ◌>>◌, perform, fail, attempt, require_some, pure}
use herdr_harness_lite.Controller.Ports.{Deps, Outcome, CloseReason, Runtime, ok, throw}
use herdr_harness_lite.Controller.Closing.{
  close_attempt, close_in, close_completed_attempt, runtime_for, on_closed, runs_on_pi_rpc,
}
use herdr_harness_lite.Model.Job.{Job}
use herdr_harness_lite.Base.{Option, String, refl, if◌then◌else◌, some, none}
use herdr_harness_lite.Model.Attempt.{Attempt, AgentHandle}
use herdr_harness_lite.Controller.Steps.{Quiet, if-Quiet, option-Quiet, bind-Quiet}

module _ {E : Type 0} (deps : Deps E) where
  some-Quiet :
      {A : Type 0} (o : Option A) (message : String) → Quiet {E = E} (require_some o message)
  some-Quiet none message s = refl
  some-Quiet (some a) message s = refl

  pub runtime_for-Quiet : (a : Attempt) → Quiet (runtime_for deps a)
  unfolding runtime_for
  runtime_for-Quiet a =
      if-Quiet (runs_on_pi_rpc a)
        (require_some deps.ports.pi_rpc_runtime "Pi RPC adapter is unavailable")
        (pure deps.ports.herdr)
        (some-Quiet deps.ports.pi_rpc_runtime "Pi RPC adapter is unavailable") (λ s. refl)

  close_in-Quiet :
      (a : Attempt) (handle : AgentHandle) (reason : CloseReason) (runtime : Runtime E)
      → Quiet (close_in deps a handle reason runtime)
  unfolding close_in
  close_in-Quiet a handle reason runtime =
      let close = perform (deps.ports.close_pane handle) in
      let pane = if runs_on_pi_rpc a then close else pure tt in
      option-Quiet runtime.terminate close
        (λ terminate. perform (terminate handle a reason) >> pane) (λ s. refl)
        (λ terminate.
          bind-Quiet (perform (terminate handle a reason)) (λ _. pane) (λ s. refl)
            (λ _. if-Quiet (runs_on_pi_rpc a) close (pure tt) (λ s. refl) (λ s. refl)))

  pub close_attempt-Quiet :
      (a : Attempt) (reason : CloseReason) → Quiet (close_attempt deps a reason)
  unfolding close_attempt
  close_attempt-Quiet a reason =
      option-Quiet a.handle (fail "attempt has no pane identity")
        (λ handle. runtime_for deps a >>= close_in deps a handle reason) (λ s. refl)
        (λ handle.
          bind-Quiet (runtime_for deps a) (close_in deps a handle reason) (runtime_for-Quiet a)
            (close_in-Quiet a handle reason))

  on_closed-Quiet :
      (job : Job) (a : Attempt) (r : Outcome (Unit {0})) → Quiet (on_closed deps job a r)
  on_closed-Quiet job a (ok u) s = refl
  on_closed-Quiet job a (throw message) s = refl

  pub close_completed_attempt-Quiet :
      (job : Job) (a : Attempt) → Quiet (close_completed_attempt deps job a)
  unfolding close_completed_attempt
  close_completed_attempt-Quiet job a =
      option-Quiet a.handle _ _ (λ s. refl)
        (λ handle.
          bind-Quiet (attempt (close_attempt deps a CloseReason.completed)) (on_closed deps job a)
            (close_attempt-Quiet a CloseReason.completed) (on_closed-Quiet job a))
