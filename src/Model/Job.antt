-- ===== src/Model/Job.antt =====
-- src/model.ts: pull requests, the Job, the ledger, and `evolveJob`.
use herdr_harness_lite.Base.{Eq, Option, Bool, ℕ, String, ◌+◌, List}
use herdr_harness_lite.Model.Incident.{
  Cancellation, Reassessment, Incident, AnalystAdvice, Approval, AutomaticRecovery,
}
use herdr_harness_lite.Model.Handoff.{TaskSnapshot, TypedHandoff}
use herdr_harness_lite.Model.Attempt.{Attempt}

pub record WorktreeHandle : Type 0 where
  pub workspace_id : String
  pub path : String
  pub branch : String

pub record AnalystSession : Type 0 where
  pub id : String
  pub agent_name : String
  pub started_at : String
  pub task_digest : String

pub record PullRequestRef : Type 0 where
  pub number : ℕ
  pub url : String
  pub head_sha : String

pub data CheckBucket : Type 0 where
  pass fail pending skipping cancel : CheckBucket

unfoldable pub CheckBucket-discrete : Discrete CheckBucket
CheckBucket-discrete = hlevel

instance abbrev pub check_bucket_eq : Eq CheckBucket
check_bucket_eq = record { dec = CheckBucket-discrete }

pub record PullRequestCheck : Type 0 where
  pub name : String
  pub state : String
  pub bucket : CheckBucket
  pub workflow : String
  pub link : String
  pub completed_at : Option String
  pub diagnostic : Option String

pub data PullRequestStatus : Type 0 where
  is_opened merged closed_unmerged : PullRequestStatus

unfoldable pub PullRequestStatus-discrete : Discrete PullRequestStatus
PullRequestStatus-discrete = hlevel

instance abbrev pub pull_request_status_eq : Eq PullRequestStatus
pull_request_status_eq = record { dec = PullRequestStatus-discrete }

pub record PullRequestObservation : Type 0 where
  pub status : PullRequestStatus
  pub auto_merge_enabled : Bool
  pub required_checks : List PullRequestCheck

pub record CiFailure : Type 0 where
  pub head_sha : String
  pub observed_at : String
  pub checks : List PullRequestCheck

abbrev pub max_ci_reworks : ℕ
max_ci_reworks = 2

abbrev pub max_attempt_reconciliations : ℕ
max_attempt_reconciliations = 1

pub data JobState : Type 0 where
  claimed worker_ready worker_running reviewer_ready reviewer_running publish_ready : JobState
  awaiting_merge blocked recovery_approved done cancelled : JobState

unfoldable pub JobState-discrete : Discrete JobState
JobState-discrete = hlevel

instance abbrev pub job_state_eq : Eq JobState
job_state_eq = record { dec = JobState-discrete }

pub record Job : Type 0 where
  pub id : String
  pub revision : ℕ
  pub state : JobState
  pub task : TaskSnapshot
  pub base_sha : String
  pub claim_confirmed : Bool
  pub head_sha : Option String
  pub branch : String
  pub worktree : Option WorktreeHandle
  pub analyst : Option AnalystSession
  pub active_attempt : Option Attempt
  pub attempts : List Attempt
  pub review_round : ℕ
  pub max_review_rounds : ℕ
  pub pending_handoff : Option TypedHandoff
  pub pending_brief : Option String
  pub incident : Option Incident
  pub analysis : Option AnalystAdvice
  pub approval : Option Approval
  pub automatic_recoveries : Option (List AutomaticRecovery)
  pub cancellation : Option Cancellation
  pub reassessments : Option (List Reassessment)
  pub pull_request : Option PullRequestRef
  pub ci_failure : Option CiFailure
  pub ci_rework_count : Option ℕ
  pub last_error : Option String
  pub created_at : String
  pub updated_at : String

pub data TerminalState : Type 0 where
  done cancelled : TerminalState

pub record TerminalJob : Type 0 where
  pub id : String
  pub repo : String
  pub issue_number : ℕ
  pub state : TerminalState
  pub finished_at : String
  pub cancellation : Option Cancellation
  pub reassessments : Option (List Reassessment)

-- `version` is 1.
pub record HarnessState : Type 0 where
  pub active_job : Option Job
  pub terminal_jobs : List TerminalJob

-- A patch may set every field but `id`, `revision` and `createdAt`.
unfoldable pub evolve_job : Job → String → (Job → Job) → Job
evolve_job job now patch = record (patch job) {
  id = job.id;
  revision = job.revision + 1;
  created_at = job.created_at;
  updated_at = now;
}
