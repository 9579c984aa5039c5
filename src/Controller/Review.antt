-- ===== src/Controller/Review.antt =====
-- src/controller/attempt-settlement.ts: what is done with a Reviewer's result.
use herdr_harness_lite.Controller.Action.{◌>>=◌, ◌>>◌, Action, pure, or_else, now}
use herdr_harness_lite.Controller.Ports.{Deps}
use herdr_harness_lite.Model.Attempt.{
  Attempt, ReviewerResult, of_reviewer, ReviewerStatus, reviewer_status_eq, worker_status_eq,
  agent_status_eq,
}
use herdr_harness_lite.Base.{
  Option, String, ◌otherwise◌, some, none, if◌then◌else◌, ◌++◌, ◌∷◌, is_empty, leb, is_none, ◌||◌,
  [], true, Bool,
}
use herdr_harness_lite.Controller.Integrity.{by_lane, block_with}
use herdr_harness_lite.Model.Job.{Job, HarnessState, publish_ready, worker_ready, evolve_job}
use herdr_harness_lite.Controller.Context.{
  block, save_job, BlockInput, TickResult, result, attempt_completed,
}
use herdr_harness_lite.Controller.Closing.{
  settle_attempt, with_herdr_diagnostic, close_completed_attempt,
}
use herdr_harness_lite.Handoff.{review_changes_handoff}
use herdr_harness_lite.Model.Handoff.{TypedHandoff}
use herdr_harness_lite.Policy.{is_falsy}
use herdr_harness_lite.Model.Incident.{review_uncertain, integrity_violation}
use herdr_harness_lite.Controller.Diagnostics.{result_diagnostic}
use herdr_harness_lite.Model.Snapshot.{reviewer, lane_eq}
use herdr_harness_lite.Base.Text.{◌<>◌, show_number}

-- The Job whose review has passed.
abbrev pub review_passed : Attempt → Attempt → Job → Job
review_passed a settled j = record j {
  state = publish_ready;
  active_attempt = none;
  attempts = j.attempts ++ (settled ∷ []);
  review_round = a.round;
  last_error = none;
}

-- The Job whose review asks for changes.
abbrev pub changes_asked : Attempt → Attempt → ReviewerResult → TypedHandoff → Job → Job
changes_asked a settled review handoff j = record j {
  state = worker_ready;
  active_attempt = none;
  attempts = j.attempts ++ (settled ∷ []);
  review_round = a.round;
  pending_handoff = some handoff;
  last_error = some review.summary;
}

abbrev pub uncertain : ReviewerResult → String → BlockInput
uncertain review summary =
    by_lane review_uncertain reviewer summary (some (of_reviewer review)) none

abbrev pub is_unbound : Job → ReviewerResult → Bool
is_unbound job review =
    is_none job.worktree || is_falsy job.head_sha || is_falsy review.reviewed_head_sha

abbrev pub settled_review : Attempt → ReviewerResult → String → Attempt
settled_review a review at = settle_attempt a (some (of_reviewer review)) at

module _ {E : Type 0} (deps : Deps E) where
  unfoldable pub settle_passed : HarnessState → Job → Attempt → Attempt → Action E TickResult
  unfolding save_job
  settle_passed state job a settled = do
    at ← now deps
    save_job deps state job (evolve_job job at (review_passed a settled))
    pure (
        result true attempt_completed job
          ("independent review passed at round " <> show_number a.round))

  unfoldable pub settle_changes :
      HarnessState → Job → Attempt → Attempt → ReviewerResult → String → Action E TickResult
  unfolding save_job review_changes_handoff
  settle_changes state job a settled review created_at = do
    at ← now deps
    save_job deps state job (
        evolve_job job at (
          changes_asked a settled review (
            review_changes_handoff deps.platform job (job.head_sha otherwise "") a review
              created_at)))
    pure (result true attempt_completed job "review findings routed to a fresh worker attempt")

  -- `finishReviewer` on a review that asks for changes.
  unfoldable pub finish_changes :
      HarnessState → Job → Attempt → Attempt → ReviewerResult → Action E TickResult
  unfolding block close_completed_attempt settle_changes
  finish_changes state job a settled review =
      if is_empty review.findings
      then block deps state job
          (uncertain review "review requested changes without actionable findings")
      else if leb job.max_review_rounds a.round
      then block deps state job (
          uncertain review
            ("review rounds exhausted at " <> show_number a.round <> ": " <> review.summary))
      else or_else (close_completed_attempt deps job a)
          (now deps >>= settle_changes state job a settled review)

  -- `finishReviewer` on a review that passes.
  unfoldable pub finish_passed : HarnessState → Job → Attempt → Attempt → Action E TickResult
  unfolding close_completed_attempt settle_passed
  finish_passed state job a settled =
      or_else (close_completed_attempt deps job a) (settle_passed state job a settled)

  unfoldable pub uncertain_review :
      HarnessState → Job → ReviewerResult → Option String → Action E TickResult
  unfolding block with_herdr_diagnostic
  uncertain_review state job review diagnostic =
      block deps state job (uncertain review (with_herdr_diagnostic review.summary diagnostic))

  unfoldable pub unbound_review : HarnessState → Job → ReviewerResult → Action E TickResult
  unfolding block
  unbound_review state job review =
      block_with deps state job (result_diagnostic deps.platform "result_identity") (λ d.
        by_lane integrity_violation reviewer "review result lacks a bound implementation HEAD"
          (some (of_reviewer review)) (some d))

  -- `finishReviewer`, by the status of the result.
  unfoldable pub finish_reviewer :
      HarnessState
      → Job
      → Attempt
      → ReviewerResult
      → Option String
      → ReviewerStatus
      → Action E TickResult
  unfolding uncertain_review unbound_review finish_passed finish_changes settle_attempt
  finish_reviewer state job a review diagnostic ReviewerStatus.blocked =
      uncertain_review state job review diagnostic
  finish_reviewer state job a review diagnostic ReviewerStatus.failed =
      uncertain_review state job review diagnostic
  finish_reviewer state job a review diagnostic ReviewerStatus.pass =
      if is_unbound job review
      then unbound_review state job review
      else now deps >>= λ at. finish_passed state job a (settled_review a review at)
  finish_reviewer state job a review diagnostic ReviewerStatus.changes =
      if is_unbound job review
      then unbound_review state job review
      else now deps >>= λ at. finish_changes state job a (settled_review a review at) review
