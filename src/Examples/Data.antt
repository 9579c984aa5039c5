-- ===== src/Examples/Data.antt =====
-- Concrete issues, Jobs and ports for the tests.
use herdr_harness_lite.Base.{ℕ, some, none, Option, false, List, true, [], ◌∷◌}
use herdr_harness_lite.Controller.Action.{System}
use herdr_harness_lite.Controller.Ports.{
  Deps, Ports, ok, synced, worker_verified, reviewer_verified,
}
use herdr_harness_lite.Model.Attempt.{
  AttemptResult, AttemptPhase, ReviewerResult, ReviewerStatus, of_worker, WorkerStatus, Attempt,
  settled, passed, idle,
}
use herdr_harness_lite.Model.Platform.{Platform}
use herdr_harness_lite.Model.Job.{Job, PullRequestStatus, blocked, AnalystSession}
use herdr_harness_lite.Model.Incident.{
  Incident, RecoveryAction, AutomaticRecoveryCandidate, AutomaticRecovery, Approval,
  infrastructure_exhausted, AnalystAdvice, pre_dispatch, of_lane, retry_fresh_worker,
  analyst_advice, hold,
}
use herdr_harness_lite.Controller.Gates.{ApprovalRequest}
use herdr_harness_lite.Model.Handoff.{TaskSnapshot, major}
use herdr_harness_lite.Model.Issue.{IssueSnapshot, opened}
use herdr_harness_lite.Model.Snapshot.{worker}
use herdr_harness_lite.Model.Evidence.{EvidenceItem, advised, AnalystAnswer}

-- A hash that is the same for all texts, which is enough where no two digests must differ.
abbrev pub platform : Platform
platform = record {
  sha256 = λ text. "0000000000000000000000000000000000000000000000000000000000000000";
  json_string = λ text. text;
  parse_date = λ text. none;
  iso_string = λ time. "2026-01-01T00:00:00.000Z";
  is_absolute = λ path. true;
  is_safe_diagnostic = λ diagnostic. true;
  path_is_within = λ parent child. true;
  locale_le = λ left right. true;
}

abbrev pub ready_issue : ℕ → IssueSnapshot
ready_issue n = record {
  number = n;
  title = "Task";
  body = "Do it.";
  state = opened;
  labels = "ready" ∷ [];
  assignees = [];
  blocked_by = [];
  parent_number = none;
  sub_issues = [];
  updated_at = "2026-01-01T00:00:00Z";
}

abbrev pub task : TaskSnapshot
task = record {
  repo = "owner/repo";
  issue_number = 7;
  map_number = none;
  title = "Task";
  objective = "Do it.";
  labels = "ready" ∷ [];
  blocked_by = some [];
  issue_updated_at = "2026-01-01T00:00:00Z";
  digest = "digest";
}

abbrev pub worker_attempt : AttemptPhase → Option AttemptResult → Attempt
worker_attempt phase result = record {
  id = "attempt-1";
  lane = worker;
  phase = phase;
  round = 1;
  base_sha = "base";
  expected_head_sha = none;
  expected_remote_head_sha = none;
  result_path = "/results/1";
  reviewer_validation_argv = none;
  prompt_digest = "prompt";
  execution_snapshot = none;
  plan_digest = none;
  context_envelope = none;
  context_envelope_digest = none;
  handle = none;
  result = result;
  reviewer_validation_receipt = none;
  reviewer_checkpoint_inputs = none;
  reconciliation_attempts = none;
  started_at = "2026-01-01T00:00:00Z";
  completed_at = none;
}

abbrev pub worker_result : AttemptResult
worker_result = of_worker (record {
  version = 1;
  job_id = "job-1";
  attempt_id = "attempt-1";
  status = WorkerStatus.completed;
  summary = "done";
  head_sha = some "head";
  failed_commands = [];
})

abbrev pub changes : ReviewerResult
changes = record {
  version = 1;
  job_id = "job-1";
  attempt_id = "attempt-1";
  status = ReviewerStatus.changes;
  summary = "one finding";
  reviewed_head_sha = some "head";
  findings = record { severity = major; summary = "a bug"; evidence = "line 3" } ∷ [];
}

abbrev pub candidate : AutomaticRecoveryCandidate
candidate = pre_dispatch "fingerprint"

-- An incident of an exhausted infrastructure, with a candidate for its recovery.
abbrev pub exhausted : Incident
exhausted = record {
  id = "incident-1";
  block_class = infrastructure_exhausted;
  lane = of_lane worker;
  attempt_id = some "attempt-1";
  summary = "the runtime did not start";
  evidence_digest = "evidence";
  allowed_actions = retry_fresh_worker ∷ hold ∷ [];
  automatic_recovery = some candidate;
  runtime_diagnostic = none;
  created_at = "2026-01-01T00:00:00Z";
}

abbrev pub advice : RecoveryAction → AnalystAdvice
advice action = record {
  id = "analysis-1";
  incident_id = "incident-1";
  evidence_digest = "evidence";
  action = action;
  summary = "advice";
  resolution_brief = "start again";
  evidence_refs = [];
  unknowns = [];
  diagnosis = none;
  created_at = "2026-01-01T00:00:00Z";
}

abbrev pub approval : Approval
approval = record {
  id = "approval-1";
  job_revision = 3;
  incident_id = "incident-1";
  analysis_id = some "analysis-1";
  action = retry_fresh_worker;
  basis = some analyst_advice;
  policy_rule_name = none;
  fingerprint = some "fingerprint";
  actor = "operator";
  reason = "try again";
  created_at = "2026-01-01T00:00:00Z";
  consumed_at = none;
}

-- The recovery that was recorded when the candidate was used.
abbrev pub recorded : AutomaticRecovery
recorded = record {
  approval = approval;
  attempt_id = "attempt-1";
  scope_fingerprint = none;
  lane = none;
  head_sha = none;
  provider = none;
  failure_code = none;
  not_before = none;
}

-- A blocked Job, with an analysis that advises the action.
abbrev pub blocked_job_with : RecoveryAction → Option (List AutomaticRecovery) → Job
blocked_job_with action recoveries = record {
  id = "job-1";
  revision = 3;
  state = blocked;
  task = task;
  base_sha = "base";
  claim_confirmed = true;
  head_sha = some "head";
  branch = "task-7";
  worktree = none;
  analyst = none;
  active_attempt = some (worker_attempt settled none);
  attempts = [];
  review_round = 0;
  max_review_rounds = 1;
  pending_handoff = none;
  pending_brief = none;
  incident = some exhausted;
  analysis = some (advice action);
  approval = none;
  automatic_recoveries = recoveries;
  cancellation = none;
  reassessments = none;
  pull_request = none;
  ci_failure = none;
  ci_rework_count = none;
  last_error = some "the runtime did not start";
  created_at = "2026-01-01T00:00:00Z";
  updated_at = "2026-01-01T00:00:00Z";
}

abbrev pub evidence : EvidenceItem
evidence = record { reference = "log-1"; source = "log"; summary = "a log"; digest = "d" }

-- An answer that advises a retry, and cites what it was shown.
abbrev pub answer : AnalystAnswer
answer = record {
  action = retry_fresh_worker;
  summary = "advice";
  resolution_brief = "start again";
  evidence_refs = "log-1" ∷ [];
  unknowns = [];
  diagnosis = none;
}

abbrev pub session : AnalystSession
session = record {
  id = "analyst-1";
  agent_name = "analyst";
  started_at = "2026-01-01T00:00:00Z";
  task_digest = "digest";
}

-- Ports that answer at once, on a world without state.
abbrev pub ports : Ports (Unit {0})
ports = record {
  now = λ e. ("2026-01-02T00:00:00Z", e);
  next_id = λ prefix e. (prefix, e);
  read = λ e. (ok tt, e);
  lock = λ e. (ok tt, e);
  unlock = λ e. e;
  write = λ state e. (ok tt, e);
  publish = λ input e. (ok (record { number = 5; url = "url"; head_sha = input.head_sha }), e);
  observe_pull_request = λ repo pr e. (
    ok (record {
      status = PullRequestStatus.merged;
      auto_merge_enabled = false;
      required_checks = [];
    }),
    e,
  );
  suspend_auto_merge = λ repo pr e. (ok tt, e);
  refresh_base = λ path ref e. (ok "base", e);
  sync_base = λ input e. (ok (synced "head"), e);
  verify_worker = λ check e. (ok (worker_verified check.reported_head_sha), e);
  verify_reviewer = λ check e. (ok reviewer_verified, e);
  inspect_side_effects =
      λ check e. (ok (record { worktree_changed = false; commit_created = false }), e);
  verify_validation = λ job attempt receipt e. (ok passed, e);
  herdr = record {
    wait = λ input e.
        (ok (record { agent_status = idle; result = some worker_result; diagnostic = none }), e);
    terminate = none;
  };
  pi_rpc_runtime = none;
  close_pane = λ handle e. (ok tt, e);
  start_analyst = λ id t e.
      (ok (record { id = "a"; agent_name = "a"; started_at = "t"; task_digest = t.digest }), e);
  analyst_turn = λ session job pack turn e. (ok (advised answer), e);
  close_analyst = λ id digest session e. (ok tt, e);
  initial_evidence = λ job e. (ok (evidence ∷ [], []), e);
  collect_evidence = λ job requests e. (ok (evidence ∷ []), e);
  list_issue_graph = λ repo label e. (ok (ready_issue 7 ∷ []), e);
  get_issue = λ repo number e. (ok (ready_issue number), e);
  claim_issue = λ input e. (ok tt, e);
  requeue_issue = λ repo number claim ready e. (ok tt, e);
  release_issue_claim = λ repo number claim e. (ok tt, e);
  create_worktree =
      λ input e. (ok (record { workspace_id = "w"; path = input.path; branch = input.branch }), e);
  preflight = λ e. (ok tt, e);
  file_exists = λ path e. false;
}

abbrev pub deps : Deps (Unit {0})
deps = record {
  platform = platform;
  ports = ports;
  config = record {
    repo = "owner/repo";
    local_path = "/repo";
    worktree_root = "/worktrees/";
    claim_label = "claimed";
    max_analyst_turns = 2;
    base_ref = "main";
    auto_merge = false;
    ready_label = "ready";
    max_review_rounds = 1;
  };
}

abbrev pub system : Job → System (Unit {0})
system job = record { ledger = record { active_job = some job; terminal_jobs = [] }; env = tt }

abbrev pub request : ApprovalRequest
request = record {
  expected_revision = 3;
  incident_id = "incident-1";
  analysis_id = "analysis-1";
  actor = "operator";
  reason = "try again";
}
