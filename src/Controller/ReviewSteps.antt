-- ===== src/Controller/ReviewSteps.antt =====
-- src/controller/attempt-settlement.ts: what a Reviewer's result does to the ledger.
use herdr_harness_lite.Controller.Action.{Action, or_else, ◌>>=◌, now}
use herdr_harness_lite.Controller.Ports.{Deps}
use herdr_harness_lite.Model.Job.{
  Job, HarnessState, blocked, job_state_eq, publish_ready, worker_ready,
}
use herdr_harness_lite.Model.Attempt.{
  Attempt, ReviewerStatus, worker_status_eq, reviewer_status_eq, ReviewerResult, agent_status_eq,
}
use herdr_harness_lite.Base.{Option, if◌then◌else◌, leb, ◌≡◌, String, false, refl, is_empty}
use herdr_harness_lite.Controller.Review.{
  unbound_review, finish_changes, finish_passed, finish_reviewer, settle_changes, settle_passed,
  uncertain_review, is_unbound, uncertain, settled_review, review_passed,
}
use herdr_harness_lite.Controller.Context.{TickResult, block}
use herdr_harness_lite.Controller.Steps.{Steps, Any, if-Runs, May}
use herdr_harness_lite.Controller.Saves.{timed-Steps, evolved-Steps, block-Steps}
use herdr_harness_lite.Controller.Closing.{close_completed_attempt}
use herdr_harness_lite.Controller.IntegritySteps.{block_with-Steps}
use herdr_harness_lite.Base.Text.{◌<>◌, show_number}
use herdr_harness_lite.Model.Snapshot.{lane_eq}
use herdr_harness_lite.Controller.CompletionSteps.{tested-Steps, closed-Steps}

module _ {E : Type 0} (deps : Deps E) (state : HarnessState) (job : Job) (Wanted : Job → Type 0)
    (may_block : May Wanted blocked) where
  -- A verdict about a HEAD that the Job has.
  bound_review-Steps :
      (r : ReviewerResult) (f : String → Action E TickResult)
      → ((at : String) → Steps deps state job Wanted (f at))
      → Steps deps state job Wanted
          (if is_unbound job r then unbound_review deps state job r else now deps >>= f)
  unfolding unbound_review
  bound_review-Steps r f k =
      if-Runs deps state job Wanted Any (is_unbound job r) (unbound_review deps state job r)
        (now deps >>= f) (block_with-Steps deps state job Wanted may_block _ _)
        (timed-Steps deps state job Wanted f k)

  finish_passed-Steps :
      (a settled : Attempt)
      → May Wanted publish_ready
      → Steps deps state job Wanted (finish_passed deps state job a settled)
  unfolding finish_passed settle_passed
  finish_passed-Steps a settled may_publish =
      closed-Steps deps state job Wanted may_block a (settle_passed deps state job a settled)
        (evolved-Steps deps state job Wanted (review_passed a settled) _ may_publish)

  finish_changes-Steps :
      (a settled : Attempt) (r : ReviewerResult)
      → (leb job.max_review_rounds a.round ≡ false → May Wanted worker_ready)
      → Steps deps state job Wanted (finish_changes deps state job a settled r)
  unfolding finish_changes settle_changes
  finish_changes-Steps a settled r may_work =
      let again : Action E TickResult =
        or_else (close_completed_attempt deps job a)
          (now deps >>= settle_changes deps state job a settled r) in
      let bounded : Action E TickResult =
        if leb job.max_review_rounds a.round
        then block deps state job (
            uncertain r ("review rounds exhausted at " <> show_number a.round <> ": " <> r.summary))
        else again in
      if-Runs deps state job Wanted Any (is_empty r.findings) _ bounded
        (block-Steps deps state job Wanted _ may_block)
        (tested-Steps deps state job Wanted may_block (leb job.max_review_rounds a.round) _ again
          (block-Steps deps state job Wanted _ may_block)
          (λ e.
            closed-Steps deps state job Wanted may_block a
              (now deps >>= settle_changes deps state job a settled r)
              (timed-Steps deps state job Wanted (settle_changes deps state job a settled r)
                (λ at. evolved-Steps deps state job Wanted _ _ (may_work e)))))

  pub finish_reviewer-Steps :
      (a : Attempt) (r : ReviewerResult) (d : Option String) (status : ReviewerStatus)
      → (status ≡ ReviewerStatus.pass → May Wanted publish_ready)
      → (status ≡ ReviewerStatus.changes
          → leb job.max_review_rounds a.round ≡ false
          → May Wanted worker_ready)
      → Steps deps state job Wanted (finish_reviewer deps state job a r d status)
  unfolding finish_reviewer uncertain_review unbound_review
  finish_reviewer-Steps a r d ReviewerStatus.blocked may_publish may_work =
      block-Steps deps state job Wanted _ may_block
  finish_reviewer-Steps a r d ReviewerStatus.failed may_publish may_work =
      block-Steps deps state job Wanted _ may_block
  finish_reviewer-Steps a r d ReviewerStatus.pass may_publish may_work =
      bound_review-Steps r (λ at. finish_passed deps state job a (settled_review a r at))
        (λ at. finish_passed-Steps a _ (may_publish refl))
  finish_reviewer-Steps a r d ReviewerStatus.changes may_publish may_work =
      bound_review-Steps r (λ at. finish_changes deps state job a (settled_review a r at) r)
        (λ at. finish_changes-Steps a _ r (may_work refl))
