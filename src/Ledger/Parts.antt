-- ===== src/Ledger/Parts.antt =====
-- Tests that several assertions of src/model.ts share.
use herdr_harness_lite.Model.Incident.{
  AnalystDiagnosis, AnalystHypothesis, Cancellation, Reassessment,
}
use herdr_harness_lite.Base.{
  Eq, ℕ, List, String, Bool, Option, false, is_some, every, none, ◌&&◌, ◌∷◌, leb, includes,
  if◌then◌else◌, ◌==◌, ◌||◌, not, some, length, is_empty, string_eq, [], some_of, ◌/=◌,
}
use herdr_harness_lite.Model.Platform.{Platform}
use herdr_harness_lite.Model.Job.{Job, CiFailure, CheckBucket, check_bucket_eq}
use herdr_harness_lite.Base.Text.{is_bounded_text}
use herdr_harness_lite.Policy.Operator.{holds_of}

unfoldable pub first_failure : List (Bool × String) → Option String
first_failure [] = none
first_failure ((test, message) ∷ rest) =
    let later = first_failure rest in if test then some message else later

-- `new Set(xs).size !== xs.length`
unfoldable pub has_duplicate : {A : Type 0} → Eq A → List A → Bool
has_duplicate e [] = false
has_duplicate e (x ∷ xs) = includes ⦃e = e⦄ xs x || has_duplicate e xs

-- `Number.isFinite(Date.parse(text))`
abbrev pub is_date : Platform → String → Bool
is_date platform text = is_some (platform.parse_date text)

unfoldable pub is_cancellation : Platform → Cancellation → Bool
is_cancellation platform c =
    is_bounded_text c.id 512
    && is_bounded_text c.incident_id 512
    && is_bounded_text c.analysis_id 512
    && is_bounded_text c.actor 512
    && is_bounded_text c.reason 2000
    && is_date platform c.created_at

unfoldable pub is_reassessment : Platform → Reassessment → Bool
is_reassessment platform r =
    is_bounded_text r.id 512
    && is_bounded_text r.incident_id 512
    && is_bounded_text r.analysis_id 512
    && is_bounded_text r.replacement_incident_id 512
    && is_bounded_text r.actor 512
    && is_bounded_text r.reason 2000
    && is_date platform r.created_at

unfoldable pub is_ci_evidence : Platform → Job → CiFailure → Bool
is_ci_evidence platform job f =
    holds_of (λ pr. f.head_sha == pr.head_sha) job.pull_request
    && is_date platform f.observed_at
    && not (is_empty f.checks)
    && not (some_of (λ c. c.bucket /= CheckBucket.fail && c.bucket /= CheckBucket.cancel) f.checks)

all_bounded : ℕ → List String → Bool
all_bounded max xs = every (λ x. is_bounded_text x max) xs

is_hypothesis : AnalystHypothesis → Bool
is_hypothesis h =
    is_bounded_text h.claim 512
    && leb (length h.evidence_refs) 8
    && not (has_duplicate string_eq h.evidence_refs)
    && all_bounded 128 h.evidence_refs

unfoldable pub is_analyst_diagnosis : AnalystDiagnosis → Bool
unfolding all_bounded is_hypothesis
is_analyst_diagnosis d =
    is_bounded_text d.primary_cause 2000
    && leb (length d.contributing_factors) 4
    && all_bounded 512 d.contributing_factors
    && leb (length d.preservation_constraints) 4
    && all_bounded 512 d.preservation_constraints
    && leb 1 (length d.hypotheses)
    && leb (length d.hypotheses) 5
    && every is_hypothesis d.hypotheses
