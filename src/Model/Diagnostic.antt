-- ===== src/Model/Diagnostic.antt =====
-- src/pi-rpc-diagnostics.ts: the bounded diagnostic of a runtime failure, as the recovery policy reads
-- it. The codes, which come from fixed lists of texts, are texts.
use herdr_harness_lite.Base.{
  List, Option, Bool, includes, String, ◌∷◌, ℕ, some, string_eq, none, [],
}

pub record ChildExit : Type 0 where
  pub code : Option ℕ
  pub signal : Option String

pub record SafeRuntimeDiagnostic : Type 0 where
  pub failure_domain : String
  pub failure_code : String
  pub retryable : Bool
  pub domain : Option String
  pub code : Option String
  pub stage : Option String
  pub diagnostic_fingerprint : String
  pub http_status : Option ℕ
  pub provider_api : Option String
  pub phase : Option String
  pub turn_count : Option ℕ
  pub assistant_message_count : Option ℕ
  pub tool_execution_count : Option ℕ
  pub tool_error_count : Option ℕ
  pub transcript_size_bucket : Option String
  pub failure_stage : Option String
  -- Missing, `null`, or an exit.
  pub child_exit : Option (Option ChildExit)
  pub assistant_content_observed : Option Bool
  pub tool_call_observed : Option Bool
  pub tool_execution_started : Option Bool
  pub durable_result_present : Option Bool
  pub worktree_changed : Option Bool
  pub commit_created : Option Bool

pub record RuntimeSideEffectBoundary : Type 0 where
  pub assistant_content_observed : Bool
  pub tool_call_observed : Bool
  pub tool_execution_started : Bool
  pub durable_result_present : Bool
  pub worktree_changed : Bool
  pub commit_created : Bool

abbrev pub pre_side_effect_transient_provider_codes : List String
pre_side_effect_transient_provider_codes =
    "provider_rate_limited" ∷ "provider_network" ∷ "provider_timeout" ∷ "provider_upstream_5xx"
    ∷ "provider_continuation_lost" ∷ []

unfoldable pub is_pre_side_effect_transient_provider_code : String → Bool
unfolding includes
is_pre_side_effect_transient_provider_code value =
    includes pre_side_effect_transient_provider_codes value

infixl 5 ◌>>=◌
abbrev ◌>>=◌ : {A B : Type 0} → Option A → (A → Option B) → Option B
none >>= f = none
some a >>= f = f a

unfoldable pub runtime_side_effect_boundary_from :
    SafeRuntimeDiagnostic → Option RuntimeSideEffectBoundary
runtime_side_effect_boundary_from value = do
  content ← value.assistant_content_observed
  call ← value.tool_call_observed
  started ← value.tool_execution_started
  result ← value.durable_result_present
  changed ← value.worktree_changed
  commit ← value.commit_created
  some (record {
    assistant_content_observed = content;
    tool_call_observed = call;
    tool_execution_started = started;
    durable_result_present = result;
    worktree_changed = changed;
    commit_created = commit;
  })
