-- ===== src/Controller/Ports.antt =====
-- The ports of src/ports.ts that the modelled handlers call, and the fields of the configuration that they
-- read. `E` is the world outside the ledger.
use herdr_harness_lite.Base.{Option, String, Bool, ℕ, option_eq, nat_eq, List}
use herdr_harness_lite.Model.Job.{
  WorktreeHandle, HarnessState, PullRequestRef, PullRequestObservation, Job, AnalystSession,
}
use herdr_harness_lite.Model.Platform.{Platform}
use herdr_harness_lite.Model.Incident.{BlockClass}
use herdr_harness_lite.Model.Attempt.{
  AgentStatus, AgentHandle, Attempt, AttemptResult, ReviewerValidationStatus,
  ReviewerValidationReceiptBinding,
}
use herdr_harness_lite.Model.Snapshot.{Lane}
use herdr_harness_lite.Model.Handoff.{TaskSnapshot}
use herdr_harness_lite.Model.Issue.{SelectedTask, IssueSnapshot}
use herdr_harness_lite.Model.Evidence.{EvidencePack, AnalystTurn, EvidenceItem, EvidenceRequest}

-- A thrown `Error` is its message.
pub data Outcome (A : Type 0) : Type 0 where
  ok : A → Outcome A
  throw : String → Outcome A

-- A call of a port: it answers, or it throws, and the world goes on.
abbrev pub Call : Type 0 → Type 0 → Type 0
Call E A = E → Outcome A × E

pub data BaseSyncVerification : Type 0 where
  synced : String → BaseSyncVerification
  refused : BlockClass → String → BaseSyncVerification

pub record AttemptSideEffectInspection : Type 0 where
  pub worktree_changed : Bool
  pub commit_created : Bool

pub record PublishInput : Type 0 where
  pub repo : String
  pub issue_number : ℕ
  pub branch : String
  pub base_ref : String
  pub head_sha : String
  pub title : String
  pub worktree_path : String

pub record SyncInput : Type 0 where
  pub worktree : WorktreeHandle
  pub branch : String
  pub base_ref : String
  pub expected_head_sha : String
  pub expected_remote_head_sha : Option String
  pub latest_base_sha : String

pub data WorkerVerification : Type 0 where
  worker_verified : String → WorkerVerification
  worker_refused : BlockClass → String → WorkerVerification

pub data ReviewerViolation : Type 0 where
  head_mismatch worktree_dirty : ReviewerViolation

pub data ReviewerVerification : Type 0 where
  reviewer_verified : ReviewerVerification
  reviewer_refused : BlockClass → ReviewerViolation → String → ReviewerVerification

pub record WorkerCheck : Type 0 where
  pub worktree : WorktreeHandle
  pub branch : String
  pub base_sha : String
  pub reported_head_sha : String
  pub expected_remote_head_sha : Option String
  pub allowed_result_paths : List String

pub record ReviewerCheck : Type 0 where
  pub worktree : WorktreeHandle
  pub expected_head_sha : String
  pub reported_head_sha : Option String
  pub allowed_result_paths : List String

pub record SideEffectCheck : Type 0 where
  pub worktree : WorktreeHandle
  pub expected_head_sha : String
  pub allowed_result_paths : List String

pub record WaitInput : Type 0 where
  pub handle : AgentHandle
  pub attempt : Attempt
  pub result_path : String
  pub expected_job_id : String
  pub expected_attempt_id : String
  pub expected_lane : Lane

pub record RuntimeObservation : Type 0 where
  pub agent_status : AgentStatus
  pub result : Option AttemptResult
  pub diagnostic : Option String

pub data CloseReason : Type 0 where
  completed recovery cancelled : CloseReason

-- What the handlers call of a runtime; a runtime may lack `terminate`.
pub record Runtime (E : Type 0) : Type 0 where
  pub wait : WaitInput → Call E RuntimeObservation
  pub terminate : Option (AgentHandle → Attempt → CloseReason → Call E (Unit {0}))

pub record ClaimInput : Type 0 where
  pub repo : String
  pub task : SelectedTask
  pub job_id : String
  pub claim_label : String
  pub ready_label : String

pub record WorktreeInput : Type 0 where
  pub source_path : String
  pub branch : String
  pub base_ref : String
  pub path : String
  pub label : String

-- What the handlers rely on outside src/: the clock, the ids, the file system under the store, GitHub
-- and Git.
pub record Ports (E : Type 0) : Type 0 where
  pub now : E → String × E
  pub next_id : String → E → String × E
  -- Making the directory and reading the file of the ledger.
  pub read : Call E (Unit {0})
  -- Opening the lock file; closing it, which is taken not to fail, and deleting it.
  pub lock : Call E (Unit {0})
  pub unlock : E → E
  -- Writing the new state beside the old and renaming it.
  pub write : HarnessState → Call E (Unit {0})
  pub publish : PublishInput → Call E PullRequestRef
  pub observe_pull_request : String → PullRequestRef → Call E PullRequestObservation
  pub suspend_auto_merge : String → PullRequestRef → Call E (Unit {0})
  pub refresh_base : String → String → Call E String
  pub sync_base : SyncInput → Call E BaseSyncVerification
  pub verify_worker : WorkerCheck → Call E WorkerVerification
  pub verify_reviewer : ReviewerCheck → Call E ReviewerVerification
  pub inspect_side_effects : SideEffectCheck → Call E AttemptSideEffectInspection
  -- `git.verifyReviewerValidation` of the receipt of a Job's Attempt, and the status that the receipt has
  pub verify_validation :
      Job → Attempt → ReviewerValidationReceiptBinding → Call E ReviewerValidationStatus
  pub herdr : Runtime E
  -- `piRpc`, which may be missing
  pub pi_rpc_runtime : Option (Runtime E)
  -- `herdr.close`
  pub close_pane : AgentHandle → Call E (Unit {0})
  -- `analyst.start`, `analyst.turn` and `analyst.close`
  pub start_analyst : String → TaskSnapshot → Call E AnalystSession
  pub analyst_turn : AnalystSession → Job → EvidencePack → ℕ → Call E AnalystTurn
  pub close_analyst : String → String → Option AnalystSession → Call E (Unit {0})
  -- `evidence.initial`: the items, and the sources that are missing; `evidence.collect`
  pub initial_evidence : Job → Call E (List EvidenceItem × List String)
  pub collect_evidence : Job → List EvidenceRequest → Call E (List EvidenceItem)
  pub list_issue_graph : String → String → Call E (List IssueSnapshot)
  pub get_issue : String → ℕ → Call E IssueSnapshot
  pub claim_issue : ClaimInput → Call E (Unit {0})
  -- the repository, the issue, the claim's label and the label of ready issues
  pub requeue_issue : String → ℕ → String → String → Call E (Unit {0})
  pub release_issue_claim : String → ℕ → String → Call E (Unit {0})
  pub create_worktree : WorktreeInput → Call E WorktreeHandle
  -- `probeRuntimePreflight` of both lanes
  pub preflight : Call E (Unit {0})
  -- `existsSync`
  pub file_exists : String → E → Bool

-- The fields of `HarnessConfig` that the modelled handlers read.
pub record Config : Type 0 where
  pub repo : String
  pub local_path : String
  pub worktree_root : String
  pub claim_label : String
  pub max_analyst_turns : ℕ
  pub base_ref : String
  pub auto_merge : Bool
  pub ready_label : String
  pub max_review_rounds : ℕ

pub record Deps (E : Type 0) : Type 0 where
  pub platform : Platform
  pub ports : Ports E
  pub config : Config
