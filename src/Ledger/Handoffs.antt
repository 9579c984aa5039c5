-- ===== src/Ledger/Handoffs.antt =====
-- src/model.ts: `assertTypedHandoff`, and how a handoff is bound to the Job.
use herdr_harness_lite.Base.{
  Option, ℕ, String, Bool, ◌otherwise◌, none, true, is_none, ◌==◌, ◌&&◌, some, string_eq, ◌+◌, leb,
  option_eq, nat_eq, length, every, is_some,
}
use herdr_harness_lite.Model.Job.{Job, JobState, worker_ready, reviewer_ready, job_state_eq}
use herdr_harness_lite.Model.Platform.{Platform}
use herdr_harness_lite.Model.Snapshot.{Lane, worker, reviewer, lane_eq}
use herdr_harness_lite.Model.Attempt.{Attempt}
use herdr_harness_lite.Model.Handoff.{HandoffObligation, HandoffTarget, TypedHandoff, HandoffBody}
use herdr_harness_lite.Base.Text.{◌<>◌, is_bounded_text, take_text, is_hex}
use herdr_harness_lite.Model.Digest.{digest}
use herdr_harness_lite.Model.Encode.{handoff_value}

abbrev optional_text : Option String → Bool
optional_text none = true
optional_text (some s) = is_bounded_text s 512

abbrev optional_hex : ℕ → Option String → Bool
optional_hex n none = true
optional_hex n (some s) = is_hex n s

is_obligation : HandoffObligation → Bool
is_obligation o =
    is_bounded_text o.summary 10000
    && elim o.evidence [ none ↦ true | some e ↦ is_bounded_text e 10000 ]

-- `handoff-<the first 32 digits of the digest of the body>`
unfoldable pub handoff_id : Platform → HandoffBody → String
handoff_id platform body = "handoff-" <> take_text 32 (digest platform (handoff_value body))

unfoldable pub is_typed_handoff : Platform → TypedHandoff → Bool
unfolding is_obligation
is_typed_handoff platform h =
    let b = h.body in
    b.version == 1
    && h.id == handoff_id platform b
    && is_hex 64 b.source.task_digest
    && optional_text b.source.attempt_id
    && optional_hex 64 b.source.result_digest
    && optional_text b.source.incident_id
    && optional_hex 64 b.source.evidence_digest
    && optional_text b.source.analysis_id
    && optional_text b.source.approval_id
    && optional_hex 40 b.source.head_sha
    && is_hex 40 b.target.base_sha
    && optional_hex 40 b.target.expected_head_sha
    && optional_hex 40 b.target.expected_remote_head_sha
    && is_bounded_text b.summary 10000
    && leb (length b.obligations) 100
    && every is_obligation b.obligations
    && leb (length b.evidence_refs) 100
    && every (λ e. is_bounded_text e 2000) b.evidence_refs
    && leb (length b.unknowns) 100
    && every (λ e. is_bounded_text e 2000) b.unknowns
    && is_some (platform.parse_date b.created_at)

-- The state in which the next Attempt of a lane is prepared.
abbrev pub ready_state : Lane → JobState
ready_state worker = worker_ready
ready_state reviewer = reviewer_ready

abbrev pub pull_request_head : Job → Option String
pull_request_head job = elim job.pull_request [ none ↦ none | some p ↦ some p.head_sha ]

-- What a handoff to a lane is anchored to.
abbrev pub target_of : Job → Lane → HandoffTarget
target_of job worker = record {
  lane = worker;
  base_sha = job.head_sha otherwise job.base_sha;
  expected_head_sha = none;
  expected_remote_head_sha = pull_request_head job;
}
target_of job reviewer = record {
  lane = reviewer;
  base_sha = job.base_sha;
  expected_head_sha = job.head_sha;
  expected_remote_head_sha = none;
}

unfoldable pub is_bound_to_next : Job → TypedHandoff → Bool
is_bound_to_next job h =
    let source = h.body.source in
    let target = h.body.target in
    let anchor = target_of job target.lane in
    is_none job.active_attempt
    && job.state == ready_state target.lane
    && source.job_revision + 1 == job.revision
    && source.task_digest == job.task.digest
    && target.base_sha == anchor.base_sha
    && target.expected_head_sha == anchor.expected_head_sha
    && target.expected_remote_head_sha == anchor.expected_remote_head_sha

abbrev pub envelope_handoff : Attempt → Option TypedHandoff
envelope_handoff a = elim a.context_envelope [ none ↦ none | some e ↦ e.handoff ]

unfoldable pub targets_attempt : Job → Attempt → TypedHandoff → Bool
targets_attempt job a h =
    let target = h.body.target in
    h.body.source.task_digest == job.task.digest
    && target.lane == a.lane
    && target.base_sha == a.base_sha
    && target.expected_head_sha == a.expected_head_sha
    && target.expected_remote_head_sha == a.expected_remote_head_sha
