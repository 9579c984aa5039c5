-- ===== src/Policy/Results.antt =====
-- src/policy.ts: which results `validateAttemptResult` accepts.
use herdr_harness_lite.Policy.{
  validate_attempt_result, result_version, valid, result_job_id, result_attempt_id, result_lane,
  lacks_head, lacks_reviewed_head, is_falsy,
}
use herdr_harness_lite.Base.{
  String, Option, ◌≡◌, some, arith, false, none, ◌≢◌, refl, inl, inr, ◌⊎◌,
}
use herdr_harness_lite.Model.Attempt.{
  Attempt, AttemptResult, of_worker, of_reviewer, WorkerStatus, ReviewerStatus,
}
use herdr_harness_lite.Base.Text.{is_blank}

-- A commit that is present and not empty
abbrev pub Present : Option String → Type 0
Present head = (h : String) × (head ≡ some h) × (h ≢ "")

-- The HEAD that a result must name: a completed Worker's, and that of a review that passes or asks for
-- changes. No other status asks for one.
abbrev pub NamesHead : AttemptResult → Type 0
NamesHead (of_worker r) = (r.status ≢ WorkerStatus.completed) ⊎ Present r.head_sha
NamesHead (of_reviewer r) =
    ((r.status ≢ ReviewerStatus.pass) × (r.status ≢ ReviewerStatus.changes))
    ⊎ Present r.reviewed_head_sha

is_falsy-Present : (head : Option String) → is_falsy head ≡ false → Present head
is_falsy-Present none h = ground arith
is_falsy-Present (some x) h = (x, refl, ground arith)

Present-is_falsy : (head : Option String) → Present head → is_falsy head ≡ false
Present-is_falsy head p = ground arith

NamesHead-lem :
    (r : AttemptResult) → lacks_head r ≡ false → lacks_reviewed_head r ≡ false → NamesHead r
NamesHead-lem (of_worker r) h k = ground (arith, is_falsy-Present r.head_sha)
NamesHead-lem (of_reviewer r) h k = ground (arith, is_falsy-Present r.reviewed_head_sha)

lacks-NamesHead :
    (r : AttemptResult) → NamesHead r → (lacks_head r ≡ false) × (lacks_reviewed_head r ≡ false)
lacks-NamesHead (of_worker r) (inl n) = ground arith
lacks-NamesHead (of_worker r) (inr p) = ground (arith, Present-is_falsy r.head_sha p)
lacks-NamesHead (of_reviewer r) (inl n) = ground arith
lacks-NamesHead (of_reviewer r) (inr p) = ground (arith, Present-is_falsy r.reviewed_head_sha p)

-- A result of this Job and this Attempt, on its lane, with the HEAD that its status needs.
abbrev pub Belongs : String → Attempt → AttemptResult → Type 0
Belongs job_id attempt r =
    (result_version r ≡ 1)
    × (is_blank (result_job_id r) ≡ false)
    × (is_blank (result_attempt_id r) ≡ false)
    × (result_job_id r ≡ job_id)
    × (result_attempt_id r ≡ attempt.id)
    × (result_lane r ≡ attempt.lane)
    × NamesHead r

-- A result that `validate_attempt_result` accepts is the one it was given, and has version 1,
-- identities that are not blank and are those of the Job and the Attempt, the lane of the Attempt,
-- and the HEAD that its status needs.
pub valid→Belongs :
    (job_id : String) (attempt : Attempt) (result : Option AttemptResult) (r : AttemptResult)
    → validate_attempt_result job_id attempt result ≡ valid r
    → (result ≡ some r) × Belongs job_id attempt r
unfolding validate_attempt_result
valid→Belongs job_id attempt none r h = cc
valid→Belongs job_id attempt (some x) r h = ground (arith, NamesHead-lem x)

-- A result with version 1, identities that are not blank and are those of the Job and the Attempt,
-- the lane of the Attempt, and the HEAD that its status needs, is accepted.
pub Belongs→valid :
    (job_id : String) (attempt : Attempt) (r : AttemptResult)
    → Belongs job_id attempt r
    → validate_attempt_result job_id attempt (some r) ≡ valid r
unfolding validate_attempt_result
Belongs→valid job_id attempt r h = ground (arith, lacks-NamesHead r)
