-- ===== src/Controller/Claim.antt =====
-- src/controller/task-lifecycle.ts: the claim of a task and the worktree of its Job.
use herdr_harness_lite.Controller.Action.{◌>>=◌, ◌>>◌, Action, perform, pure, now, attempt}
use herdr_harness_lite.Model.Job.{
  HarnessState, Job, worker_ready, AnalystSession, WorktreeHandle, evolve_job,
}
use herdr_harness_lite.Base.{
  String, Bool, if◌then◌else◌, false, Option, true, string_eq, none, nat_eq, some, ◌||◌, is_none,
  ◌otherwise◌, includes, not, ◌/=◌, option_eq,
}
use herdr_harness_lite.Base.Text.{◌<>◌, show_number}
use herdr_harness_lite.Controller.Ports.{Deps, Outcome, throw, ok, ClaimInput, WorktreeInput}
use herdr_harness_lite.Controller.Context.{
  TickResult, result, block, claimed_action, save_job, by_controller, worktree_created,
}
use herdr_harness_lite.Model.Issue.{SelectedTask, IssueSnapshot, opened, issue_state_eq}
use herdr_harness_lite.Eligibility.{select_next_task}
use herdr_harness_lite.Model.Incident.{analyst_unavailable, integrity_violation, stale_task}
use herdr_harness_lite.Controller.Lifecycle.{select_from, task_from_selection}
use herdr_harness_lite.Controller.Token.{trim_slash, safe_token, token_suffix}

module _ {E : Type 0} (deps : Deps E) where
  -- The Job whose claim and whose Analyst are confirmed.
  abbrev pub claim_done : AnalystSession → Job → Job
  claim_done session j = record j {
    claim_confirmed = true;
    analyst = some session;
    last_error = none;
  }

  abbrev pub worker_may_start : Job → Job
  worker_may_start j = record j { state = worker_ready }

  abbrev pub worktree_made : WorktreeHandle → Job → Job
  worktree_made w j = record j { state = worker_ready; worktree = some w; last_error = none }

  unfoldable pub on_analyst : HarnessState → Job → Outcome AnalystSession → Action E TickResult
  unfolding block save_job
  on_analyst state job (throw message) =
      block deps state job (
        by_controller analyst_unavailable ("task-bound Codex Analyst could not start: " <> message))
  on_analyst state job (ok session) = do
    at ← now deps
    save_job deps state job (evolve_job job at (claim_done session))
    pure (result true claimed_action job "GitHub claim and task-bound Analyst are confirmed")

  unfoldable pub start_analyst : HarnessState → Job → Action E TickResult
  unfolding on_analyst
  start_analyst state job =
      attempt (perform (deps.ports.start_analyst job.id job.task)) >>= on_analyst state job

  abbrev pub on_claimed : HarnessState → Job → Outcome (Unit {0}) → Action E TickResult
  on_claimed state job (throw message) =
      pure (result false claimed_action job ("GitHub claim not confirmed: " <> message))
  on_claimed state job (ok _) = start_analyst state job

  abbrev pub claim_input : Job → SelectedTask → ClaimInput
  claim_input job selected = record {
    repo = deps.config.repo;
    task = selected;
    job_id = job.id;
    claim_label = deps.config.claim_label;
    ready_label = deps.config.ready_label;
  }

  -- The claim of a task that stands, unless the issue carries the claim's label already.
  unfoldable pub claim_task :
      HarnessState → Job → IssueSnapshot → Bool → SelectedTask → Action E TickResult
  unfolding block task_from_selection start_analyst
  claim_task state job issue already_claimed selected =
      let fresh = task_from_selection deps.platform deps.config.repo selected in
      if fresh.digest /= job.task.digest || issue.state /= opened
      then block deps state job (
          by_controller stale_task
            "issue objective or state changed after selection; a new claim is required")
      else if already_claimed
      then start_analyst state job
      else attempt (perform (deps.ports.claim_issue (claim_input job selected)))
        >>= on_claimed state job

  -- The frontier once more, which must still be the Job's task.
  unfoldable pub on_frontier :
      HarnessState → Job → IssueSnapshot → Option SelectedTask → Action E TickResult
  unfolding block claim_task
  on_frontier state job issue none =
      block deps state job
        (by_controller stale_task "GitHub frontier changed before the claim could be confirmed")
  on_frontier state job issue (some selected) =
      if selected.issue.number /= job.task.issue_number
        || selected.map_number /= job.task.map_number
      then block deps state job
          (by_controller stale_task "GitHub frontier changed before the claim could be confirmed")
      else claim_task state job issue false selected

  -- The task of an issue that carries the claim's label.
  abbrev pub claimed_before : Job → IssueSnapshot → SelectedTask
  claimed_before job issue = record {
    issue = issue;
    map_number = job.task.map_number;
    selection_key = job.task.map_number otherwise job.task.issue_number;
  }

  unfoldable pub on_issue : HarnessState → Job → IssueSnapshot → Action E TickResult
  unfolding claim_task on_frontier select_next_task
  on_issue state job issue =
      if includes issue.labels deps.config.claim_label
      then claim_task state job issue true (claimed_before job issue)
      else perform (deps.ports.list_issue_graph deps.config.repo deps.config.ready_label)
        >>= λ graph. on_frontier state job issue (select_from deps graph state)

  unfoldable pub confirm_claim : HarnessState → Job → Action E TickResult
  unfolding on_issue
  confirm_claim state job =
      perform (deps.ports.get_issue deps.config.repo job.task.issue_number) >>= on_issue state job

  -- Where the worktree of a Job stands.
  unfoldable pub worktree_path : Job → String
  unfolding trim_slash safe_token token_suffix
  worktree_path job =
      trim_slash deps.config.worktree_root
      <> "/"
      <> safe_token deps.config.repo
      <> "/issue-"
      <> show_number job.task.issue_number
      <> "-"
      <> token_suffix job.id

  unfoldable pub on_worktree : HarnessState → Job → Outcome WorktreeHandle → Action E TickResult
  unfolding block save_job worktree_path
  on_worktree state job (throw message) =
      pure (result false claimed_action job ("Herdr worktree not ready: " <> message))
  on_worktree state job (ok w) =
      if w.branch /= job.branch || w.path /= worktree_path job
      then block deps state job (
          by_controller integrity_violation
            "Herdr returned a different worktree identity than requested")
      else (do
        at ← now deps
        save_job deps state job (evolve_job job at (worktree_made w))
        pure (result true worktree_created job ("Herdr worktree created at " <> w.path)))

  abbrev pub worktree_input : Job → WorktreeInput
  worktree_input job = record {
    source_path = deps.config.local_path;
    branch = job.branch;
    base_ref = job.base_sha;
    path = worktree_path job;
    label = "issue #" <> show_number job.task.issue_number;
  }

  unfoldable pub make_worktree : HarnessState → Job → Action E TickResult
  unfolding on_worktree worktree_path save_job
  make_worktree state job = elim job.worktree [
    | none ↦
        attempt (perform (deps.ports.create_worktree (worktree_input job)))
        >>= on_worktree state job
    | some w ↦ (do
      at ← now deps
      save_job deps state job (evolve_job job at worker_may_start)
      pure (result true worktree_created job "existing worktree accepted; worker lane is ready"))
  ]

  unfoldable pub advance_claim : HarnessState → Job → Action E TickResult
  unfolding block confirm_claim make_worktree
  advance_claim state job =
      if not job.claim_confirmed
      then confirm_claim state job
      else if is_none job.analyst
      then block deps state job (
          by_controller analyst_unavailable
            "claim is confirmed but no Analyst is bound to the task digest")
      else make_worktree state job
