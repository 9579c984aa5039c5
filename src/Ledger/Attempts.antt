-- ===== src/Ledger/Attempts.antt =====
-- src/model.ts: the assertions on a Reviewer's validation receipt and on reused checkpoints.
use herdr_harness_lite.Base.{
  List, String, ◌∷◌, ◌otherwise◌, Bool, Option, ◌++◌, [], none, ◌==◌, if◌then◌else◌, map, is_empty,
  ◌&&◌, true, string_eq, some, ◌/=◌, false, find, ◌||◌, ltb, length, some_of, not,
}
use herdr_harness_lite.Model.Snapshot.{
  ReviewerCheckpointBinding, reviewer, validation, reviewer_checkpoint_stage_eq, lane_eq,
}
use herdr_harness_lite.Model.Platform.{Platform}
use herdr_harness_lite.Model.Attempt.{
  Attempt, ReviewerValidationReceiptBinding, settled, attempt_phase_eq,
}
use herdr_harness_lite.Model.Job.{Job}
use herdr_harness_lite.Policy.Operator.{holds_of}
use herdr_harness_lite.Base.Text.{is_bounded_text, is_hex}
use herdr_harness_lite.Ledger.Parts.{has_duplicate}

unfoldable pub is_receipt : Attempt → ReviewerValidationReceiptBinding → Bool
is_receipt a r = a.lane == reviewer && is_bounded_text r.path 8192 && is_hex 64 r.digest

abbrev pub inputs_of : Attempt → List ReviewerCheckpointBinding
inputs_of a = a.reviewer_checkpoint_inputs otherwise []

is_source : String → Attempt → Bool
is_source id a = a.id == id

-- An input names a settled Reviewer among the Job's earlier Attempts.
is_binding : Platform → List Attempt → ReviewerCheckpointBinding → Bool
is_binding platform attempts b =
    holds_of (λ a. a.lane == reviewer && a.phase == settled)
      (find (is_source b.source_attempt_id) attempts)
    && platform.is_absolute b.path
    && is_bounded_text b.path 8192
    && is_hex 64 b.digest

-- A reused validation is the one that the Attempt's receipt names.
is_reused : Attempt → ReviewerCheckpointBinding → Bool
is_reused a b =
    holds_of (λ r. r.path == b.path && r.digest == b.digest) a.reviewer_validation_receipt

abbrev is_validation : ReviewerCheckpointBinding → Bool
is_validation b = b.stage == validation

same_inputs : List ReviewerCheckpointBinding → List ReviewerCheckpointBinding → Bool
same_inputs [] [] = true
same_inputs (x ∷ xs) (y ∷ ys) =
    x.stage == y.stage
    && x.path == y.path
    && x.digest == y.digest
    && x.source_attempt_id == y.source_attempt_id
    && same_inputs xs ys
same_inputs _ _ = false

envelope_inputs : Attempt → Option (List ReviewerCheckpointBinding)
envelope_inputs a = elim a.context_envelope [ none ↦ none | some e ↦ e.reviewer_checkpoint_inputs ]

-- One round of the loop over the Attempts; without inputs it tests nothing.
input_tests : Platform → List Attempt → Attempt → List (Bool × String)
unfolding is_source is_binding is_reused same_inputs envelope_inputs
input_tests platform attempts a =
    let inputs = inputs_of a in
    if is_empty inputs
    then []
    else (
      a.lane /= reviewer
          || ltb 5 (length inputs)
          || has_duplicate reviewer_checkpoint_stage_eq (map (λ b. b.stage) inputs)
          || has_duplicate string_eq (map (λ b. b.digest) inputs),
      "attempt has invalid Reviewer checkpoint inputs",
    )
      ∷ (
        some_of (λ b. not (is_binding platform attempts b)) inputs,
        "attempt has an invalid Reviewer checkpoint binding",
      )
      ∷ (
        holds_of (λ b. not (is_reused a b)) (find is_validation inputs),
        "Reviewer validation receipt is not bound to its reused checkpoint",
      )
      ∷ (
        holds_of (λ e. not (same_inputs e inputs)) (envelope_inputs a),
        "Reviewer checkpoint inputs drifted from the Attempt context envelope",
      )
      ∷ []

all_input_tests : Platform → List Attempt → List Attempt → List (Bool × String)
all_input_tests platform attempts [] = []
all_input_tests platform attempts (a ∷ rest) =
    input_tests platform attempts a ++ all_input_tests platform attempts rest

consumed_digests : List Attempt → List String
consumed_digests [] = []
consumed_digests (a ∷ rest) = map (λ b. b.digest) (inputs_of a) ++ consumed_digests rest

unfoldable pub checkpoint_tests : Platform → Job → List (Bool × String)
unfolding input_tests all_input_tests consumed_digests
checkpoint_tests platform job =
    let all_attempts = job.attempts ++ elim job.active_attempt [ none ↦ [] | some a ↦ a ∷ [] ] in
    all_input_tests platform job.attempts all_attempts
    ++ (
      has_duplicate string_eq (consumed_digests all_attempts),
      "Reviewer checkpoint was reused more than once",
    )
      ∷ []
