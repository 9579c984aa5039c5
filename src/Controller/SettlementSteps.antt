-- ===== src/Controller/SettlementSteps.antt =====
-- src/controller/attempt-settlement.ts and attempt-reconciliation.ts: what the ledger may hold after an
-- Attempt has ended, by its result.
use herdr_harness_lite.Controller.Action.{Action, or_else, System, of_outcome, or_check}
use herdr_harness_lite.Controller.Ports.{Deps, RuntimeObservation}
use herdr_harness_lite.Model.Job.{
  Job, HarnessState, JobState, blocked, max_attempt_reconciliations, reviewer_ready, job_state_eq,
  publish_ready, worker_ready, JobState-discrete,
}
use herdr_harness_lite.Model.Attempt.{
  Attempt, AttemptResult, of_worker, WorkerStatus, of_reviewer, ReviewerStatus, worker_status_eq,
  reviewer_status_eq, AgentStatus, agent_status_eq, WorkerStatus-discrete, ReviewerStatus-discrete,
}
use herdr_harness_lite.Base.{
  List, Option, if◌then◌else◌, includes, leb, ◌≡◌, true, ◌∷◌, [], String, some, false, ◌==◌, ◌&&◌,
  not, none, Bool, refl, arith, sym,
}
use herdr_harness_lite.Controller.Completion.{reconciliations, reconcile_attempt_or_block}
use herdr_harness_lite.Controller.Settlement.{
  finish_valid, finish_validated, finish_observed_attempt, finish_invalid, invalid_diagnostic,
  reported_head, settle_invalid,
}
use herdr_harness_lite.Controller.Context.{TickResult}
use herdr_harness_lite.Controller.Steps.{
  Steps, or_else-Steps, Any, if-Runs, bind-Runs, Step, or_check-Checks, Among, May, includes→May,
}
use herdr_harness_lite.Controller.Saves.{block-Steps}
use herdr_harness_lite.Model.Diagnostic.{SafeRuntimeDiagnostic}
use herdr_harness_lite.Controller.Closing.{with_herdr_diagnostic}
use herdr_harness_lite.Controller.IntegritySteps.{
  verify_bound_validation-Checks, verify_reviewer_integrity-Checks,
}
use herdr_harness_lite.Controller.Integrity.{verify_bound_validation, verify_reviewer_integrity}
use herdr_harness_lite.Policy.{Validation, validate_attempt_result, valid, invalid}
use herdr_harness_lite.Model.Snapshot.{reviewer, lane_eq}
use herdr_harness_lite.Policy.Results.{valid→Belongs}
use herdr_harness_lite.Controller.DeliverySteps.{Steps→Step}
use mathlib.Core.Path.{subst}
use herdr_harness_lite.Controller.CompletionSteps.{
  finish_worker-Steps, reconcile_attempt_or_block-Steps,
}
use herdr_harness_lite.Controller.ReviewSteps.{finish_reviewer-Steps}

-- The states that a Job may be in once an Attempt is settled, or observed, by its result: an abstract
-- view of the settlement.
unfoldable pub settlements : Job → Attempt → Option AttemptResult → List JobState
settlements job a none =
    if leb max_attempt_reconciliations (reconciliations a)
    then blocked ∷ []
    else job.state ∷ blocked ∷ []
settlements job a (some (of_worker w)) =
    if w.status == WorkerStatus.completed then reviewer_ready ∷ blocked ∷ [] else blocked ∷ []
settlements job a (some (of_reviewer r)) =
    if r.status == ReviewerStatus.pass
    then publish_ready ∷ blocked ∷ []
    else if r.status == ReviewerStatus.changes && not (leb job.max_review_rounds a.round)
    then worker_ready ∷ blocked ∷ []
    else blocked ∷ []

second-includes : (x y : JobState) → includes (x ∷ y ∷ []) y ≡ true
unfolding includes
second-includes x y = ground arith

-- What both branches list is listed.
if-includes :
    (test : Bool) (xs ys : List JobState) (x : JobState)
    → includes xs x ≡ true
    → includes ys x ≡ true
    → includes (if test then xs else ys) x ≡ true
if-includes true xs ys x hx hy = hx
if-includes false xs ys x hx hy = hy

settlements-blocked :
    (job : Job) (a : Attempt) (r : Option AttemptResult)
    → includes (settlements job a r) blocked ≡ true
unfolding settlements includes JobState-discrete
settlements-blocked job a none =
    if-includes (leb max_attempt_reconciliations (reconciliations a)) (blocked ∷ [])
      (job.state ∷ blocked ∷ []) blocked refl (second-includes job.state blocked)
settlements-blocked job a (some (of_worker w)) =
    if-includes (w.status == WorkerStatus.completed) (reviewer_ready ∷ blocked ∷ []) (blocked ∷ [])
      blocked refl refl
settlements-blocked job a (some (of_reviewer r)) =
    let again = r.status == ReviewerStatus.changes && not (leb job.max_review_rounds a.round) in
    if-includes (r.status == ReviewerStatus.pass) (publish_ready ∷ blocked ∷ [])
      (if again then worker_ready ∷ blocked ∷ [] else blocked ∷ []) blocked refl
      (if-includes again (worker_ready ∷ blocked ∷ []) (blocked ∷ []) blocked refl refl)

settled-May :
    (job : Job) (a : Attempt) (r : Option AttemptResult) → May (Among (settlements job a r)) blocked
settled-May job a r = includes→May (settlements job a r) blocked (settlements-blocked job a r)

module _ {E : Type 0} (deps : Deps E) (state : HarnessState) (job : Job) where
  finish_valid-Steps :
      (a : Attempt) (r : AttemptResult) (d : Option String)
      → Steps deps state job
          (Among (settlements job a (some r)))
          (finish_valid deps state job a r d)
  unfolding finish_valid settlements includes JobState-discrete WorkerStatus-discrete
      ReviewerStatus-discrete
  finish_valid-Steps a (of_worker w) d =
      finish_worker-Steps deps state job (Among (settlements job a (some (of_worker w))))
        (settled-May job a (some (of_worker w))) a w d w.status (λ e. includes→May _ _ (rw e refl))
  finish_valid-Steps a (of_reviewer r) d =
      finish_reviewer-Steps deps state job (Among (settlements job a (some (of_reviewer r))))
        (settled-May job a (some (of_reviewer r))) a r d r.status
        (λ e. includes→May _ _ (rw e refl)) (λ e f. includes→May _ _ (rw e (rw f refl)))

  settle_invalid-Steps :
      (a : Attempt) (r : Option AttemptResult) (is_blocked : Bool) (summary : String)
      (d : SafeRuntimeDiagnostic)
      → Steps deps state job
          (Among (settlements job a r))
          (settle_invalid deps state job a r is_blocked summary d)
  unfolding settle_invalid settlements includes JobState-discrete
  settle_invalid-Steps a none is_blocked summary d =
      let Wanted = Among (settlements job a none) in
      let may_block = settled-May job a none in
      if-Runs deps state job Wanted Any (not is_blocked)
        (reconcile_attempt_or_block deps state job a summary (some d)) _
        (reconcile_attempt_or_block-Steps deps state job Wanted may_block a summary (some d)
          (λ e. includes→May _ _ (ground arith)))
        (block-Steps deps state job Wanted _ may_block)
  settle_invalid-Steps a (some r) is_blocked summary d =
      block-Steps deps state job (Among (settlements job a (some r))) _ (settled-May job a (some r))

  finish_invalid-Steps :
      (a : Attempt) (o : RuntimeObservation) (reason : String)
      → Steps deps state job
          (Among (settlements job a o.result))
          (finish_invalid deps state job a o reason)
  unfolding finish_invalid
  finish_invalid-Steps a o reason =
      let is_blocked = o.agent_status == AgentStatus.blocked in
      let summary = with_herdr_diagnostic reason o.diagnostic in
      bind-Runs deps state job (Among (settlements job a o.result)) Any
        (of_outcome deps (invalid_diagnostic deps o.result))
        (settle_invalid deps state job a o.result is_blocked summary) (λ s. refl)
        (settle_invalid-Steps a o.result is_blocked summary)

  finish_validated-Steps :
      (a : Attempt) (o : RuntimeObservation) (v : Validation)
      → ((r : AttemptResult) → v ≡ valid r → o.result ≡ some r)
      → Steps deps state job
          (Among (settlements job a o.result))
          (finish_validated deps state job a o v)
  unfolding finish_validated
  finish_validated-Steps a o (invalid reason) same = finish_invalid-Steps a o reason
  finish_validated-Steps a o (valid r) same =
      subst
        (λ x.
          Steps deps state job (Among (settlements job a x))
            (finish_valid deps state job a r o.diagnostic))
        (sym (same r refl)) (finish_valid-Steps a r o.diagnostic)

  pub finish_observed_attempt-runs :
      (a : Attempt) (o : RuntimeObservation)
      → Steps deps state job
          (Among (settlements job a o.result))
          (finish_observed_attempt deps state job a o)
  unfolding finish_observed_attempt
  finish_observed_attempt-runs a o =
      let Wanted = Among (settlements job a o.result) in
      let may_block = settled-May job a o.result in
      let verdict = validate_attempt_result job.id a o.result in
      let rest : Action E TickResult = finish_validated deps state job a o verdict in
      let rest-Steps =
        finish_validated-Steps a o verdict (λ r e. (valid→Belongs job.id a o.result r e).0) in
      let bound = verify_bound_validation deps state job a in
      let integrity =
        verify_reviewer_integrity deps state job a (reported_head o.result) o.result in
      if-Runs deps state job Wanted Any (a.lane == reviewer)
        (or_else (or_check bound integrity) rest) rest
        (or_else-Steps deps state job Wanted (or_check bound integrity) rest
          (or_check-Checks deps state job Wanted bound integrity
            (verify_bound_validation-Checks deps state job Wanted may_block a)
            (verify_reviewer_integrity-Checks deps state job Wanted may_block a
              (reported_head o.result) o.result))
          rest-Steps)
        rest-Steps

  -- A run of `finish_observed_attempt` leaves the ledger as it was, or with the next revision of the same
  -- Job, which satisfies the invariant and is in a state that the observed result allows: without a result
  -- the Attempt may be observed once more and is then blocked, only a completed Worker leads to a review,
  -- only a passing review to a publication, and only a review with changes in a round below the last to
  -- another Worker.
  pub finish_observed_attempt-Settles :
      (a : Attempt) (o : RuntimeObservation) (s : System E)
      → Step deps.platform state job
          (settlements job a o.result)
          s.ledger
          (finish_observed_attempt deps state job a o s).1.ledger
  finish_observed_attempt-Settles a o s =
      Steps→Step deps state job (Among (settlements job a o.result))
        (finish_observed_attempt deps state job a o) s (finish_observed_attempt-runs a o)
