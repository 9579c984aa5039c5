-- ===== src/Handoff/Bound.antt =====
-- src/handoff.ts: which handoffs are bound to the next Attempt.
use herdr_harness_lite.Handoff.{
  approved_recovery_handoff, review_changes_handoff, bind_pending_handoff, identify, bound,
  retried_lane,
}
use herdr_harness_lite.Model.Job.{Job, evolve_job}
use herdr_harness_lite.Model.Handoff.{TypedHandoff}
use herdr_harness_lite.Ledger.Handoffs.{is_bound_to_next, ready_state}
use herdr_harness_lite.Model.Attempt.{Attempt, ReviewerResult}
use herdr_harness_lite.Model.Snapshot.{Lane, worker}
use herdr_harness_lite.Base.{◌≡◌, ◌+◌, none, some, arith, String, Option, true}
use herdr_harness_lite.Model.Platform.{Platform}
use herdr_harness_lite.Model.Incident.{Incident, AnalystAdvice, Approval}

-- The handoff is of the revision before, about the same task, and targets exactly this Attempt.
abbrev pub Targets : Job → Attempt → TypedHandoff → Type 0
Targets job attempt h =
    (h.body.version ≡ 1)
    × (h.body.source.job_revision + 1 ≡ job.revision)
    × (h.body.source.task_digest ≡ job.task.digest)
    × (h.body.target.lane ≡ attempt.lane)
    × (h.body.target.base_sha ≡ attempt.base_sha)
    × (h.body.target.expected_head_sha ≡ attempt.expected_head_sha)
    × (h.body.target.expected_remote_head_sha ≡ attempt.expected_remote_head_sha)

-- A handoff that is bound to an Attempt is the pending one of the Job, of version 1, of the
-- revision before, about the same task, and targets the lane and the commits of this Attempt.
pub bound→Targets :
    (job : Job) (attempt : Attempt) (h : TypedHandoff)
    → bind_pending_handoff job attempt ≡ bound (some h)
    → (job.pending_handoff ≡ some h) × Targets job attempt h
unfolding bind_pending_handoff
bound→Targets job attempt h e = ground arith

-- The Job after the revision that hands on: no Attempt is active, and the lane's next one is ready.
abbrev pub handed_on : TypedHandoff → Lane → Job → Job
handed_on h lane j = record j {
  state = ready_state lane;
  active_attempt = none;
  pending_handoff = some h;
}

-- The handoff of an approved recovery, handed on by the next revision of the Job to the lane that
-- the approval retries, satisfies the ledger's condition on a pending handoff.
pub approved_recovery_handoff-bound :
    (platform : Platform) (job : Job) (incident : Incident) (analysis : Option AnalystAdvice)
    (approval : Approval) (at : String)
    → let h = approved_recovery_handoff platform job incident analysis approval at in
      is_bound_to_next (evolve_job job at (handed_on h (retried_lane approval.action))) h ≡ true
unfolding approved_recovery_handoff is_bound_to_next evolve_job identify
approved_recovery_handoff-bound platform job incident analysis approval at = ground arith

-- The handoff of a review with changes, of a Job with a HEAD, handed on by the next revision to the
-- Worker, satisfies the ledger's condition on a pending handoff.
pub review_changes_handoff-bound :
    (platform : Platform) (job : Job) (head : String) (attempt : Attempt) (result : ReviewerResult)
    (at : String)
    → job.head_sha ≡ some head
    → let h = review_changes_handoff platform job head attempt result at in
      is_bound_to_next (evolve_job job at (handed_on h worker)) h ≡ true
unfolding review_changes_handoff is_bound_to_next evolve_job identify
review_changes_handoff-bound platform job head attempt result at e = ground arith
