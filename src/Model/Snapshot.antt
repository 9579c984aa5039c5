-- ===== src/Model/Snapshot.antt =====
-- src/model.ts: what an Attempt is executed with, and the Reviewer's checkpoints.
use herdr_harness_lite.Base.{ℕ, Eq, String, List, Bool, Option}

pub data Lane : Type 0 where
  worker reviewer : Lane

unfoldable pub Lane-discrete : Discrete Lane
Lane-discrete = hlevel

instance abbrev pub lane_eq : Eq Lane
lane_eq = record { dec = Lane-discrete }

pub data AttemptRuntimeAdapter : Type 0 where
  herdr_pi_cli pi_rpc : AttemptRuntimeAdapter

unfoldable pub AttemptRuntimeAdapter-discrete : Discrete AttemptRuntimeAdapter
AttemptRuntimeAdapter-discrete = hlevel

instance abbrev pub attempt_runtime_adapter_eq : Eq AttemptRuntimeAdapter
attempt_runtime_adapter_eq = record { dec = AttemptRuntimeAdapter-discrete }

pub data ResourceKind : Type 0 where
  skill extension agent runtime model_config : ResourceKind

pub record ExecutionResource : Type 0 where
  pub kind : ResourceKind
  pub path : String
  pub digest : String

pub data GitMode : Type 0 where
  regular executable : GitMode

-- `source` is the constant "trusted-repo-policy".
pub record ContextEntry : Type 0 where
  pub source_sha : String
  pub path : String
  pub git_mode : GitMode
  pub digest : String

-- `version` is 1 and `mode` is "explicit-v1".
pub record ExecutionContext : Type 0 where
  pub lane : Lane
  pub trust_anchor_sha : String
  pub entries : List ContextEntry
  pub bundle_path : String
  pub bundle_digest : String
  pub manifest_path : String
  pub manifest_digest : String
  pub agent_dir : String

pub record ControlledCompactionPolicy : Type 0 where
  pub trigger_percent : ℕ
  pub max_compactions : ℕ
  pub keep_recent_tokens : ℕ
  pub overflow_continuation : Bool

pub record RuntimeTimeouts : Type 0 where
  pub total_timeout_ms : ℕ
  pub no_progress_timeout_ms : ℕ
  pub sigterm_grace_ms : ℕ
  pub sigkill_grace_ms : ℕ

pub data SessionMode : Type 0 where
  ephemeral fresh_persistent : SessionMode

pub data RetryMode : Type 0 where
  runtime_default disabled : RetryMode

pub data CompactionMode : Type 0 where
  runtime_default disabled controlled_threshold : CompactionMode

pub data CredentialMode : Type 0 where
  runtime_default canonical_oauth canonical_model_config : CredentialMode

-- `version` is 1.
pub record ExecutionSnapshot : Type 0 where
  pub adapter : AttemptRuntimeAdapter
  pub executable_path : String
  pub runtime_version : String
  pub argv : List String
  pub provider : Option String
  pub model : Option String
  pub thinking : String
  pub tools : List String
  pub session_mode : SessionMode
  pub retry_mode : RetryMode
  pub compaction_mode : CompactionMode
  pub compaction_policy : Option ControlledCompactionPolicy
  pub credential_mode : CredentialMode
  pub credential_domain_id : Option String
  pub axis_concurrency : Option ℕ
  pub runtime_timeouts : Option RuntimeTimeouts
  pub runtime_deadline_at : Option String
  pub validation_timeout_ms : Option ℕ
  pub docker_host : Option String
  pub resources : List ExecutionResource
  pub context : Option ExecutionContext

pub data ReviewerCheckpointStage : Type 0 where
  reviewer_preflight standards_axis spec_axis validation reviewer_final : ReviewerCheckpointStage

unfoldable pub ReviewerCheckpointStage-discrete : Discrete ReviewerCheckpointStage
ReviewerCheckpointStage-discrete = hlevel

instance abbrev pub reviewer_checkpoint_stage_eq : Eq ReviewerCheckpointStage
reviewer_checkpoint_stage_eq = record { dec = ReviewerCheckpointStage-discrete }

pub record ReviewerCheckpointBinding : Type 0 where
  pub stage : ReviewerCheckpointStage
  pub path : String
  pub digest : String
  pub source_attempt_id : String
