-- ===== src/Controller/Lifecycle.antt =====
-- src/controller/task-lifecycle.ts: the selection of a task; `taskFromSelection` of src/model.ts.
use herdr_harness_lite.Controller.Action.{
  ◌>>=◌, ◌>>◌, save, Action, perform, pure, now, require, attempt, next_id,
}
use herdr_harness_lite.Model.Job.{TerminalState, TerminalJob, HarnessState, Job, claimed}
use herdr_harness_lite.Model.Digest.{
  text_le, Value, Items, no_items, obj, field, item, digest, str, num, end, null, arr,
}
use herdr_harness_lite.Base.{
  String, ℕ, List, Bool, false, Option, sort_by, ◌∷◌, ltb, true, ◌==◌, ◌&&◌, string_eq, none,
  nat_eq, some, ◌||◌, [], is_none, ◌otherwise◌, option_eq,
}
use herdr_harness_lite.Base.Text.{◌<>◌, show_number}
use herdr_harness_lite.Model.Platform.{Platform}
use herdr_harness_lite.Controller.Ports.{Deps, Outcome, throw, ok}
use herdr_harness_lite.Controller.Context.{
  TickAction, TickResult, preflight_failed, result, selected_action,
}
use herdr_harness_lite.Model.Issue.{SelectedTask, IssueSnapshot, IssueReference, issue_state_eq}
use herdr_harness_lite.Model.Handoff.{TaskSnapshot}
use herdr_harness_lite.Eligibility.{select_next_task, show_state}
use herdr_harness_lite.Ledger.{assert_job_invariant}
use herdr_harness_lite.Controller.Token.{token_suffix}

reference_values : List IssueReference → Items
reference_values [] = no_items
reference_values (r ∷ rs) =
    item (obj (field "number" (num r.number) (field "state" (str (show_state r.state)) end)))
      (reference_values rs)

abbrev reference_le : Platform → IssueReference → IssueReference → Bool
reference_le platform a b =
    ltb a.number b.number
    || a.number == b.number && platform.locale_le (show_state a.state) (show_state b.state)

abbrev task_identity :
    String → ℕ → Option ℕ → String → String → List IssueReference → String → Value
task_identity repo number map_number title objective blocked_by updated_at = obj (
    field "repo" (str repo) (
      field "issueNumber" (num number) (
        field "mapNumber" (elim map_number [ none ↦ null | some n ↦ num n ])
          (field "title" (str title) (
            field "objective" (str objective) (
              field "blockedBy" (arr (reference_values blocked_by))
                (field "issueUpdatedAt" (str updated_at) end)))))))

unfoldable pub task_from_selection : Platform → String → SelectedTask → TaskSnapshot
unfolding reference_values text_le
task_from_selection platform repo selected =
    let issue = selected.issue in
    let blocked_by = sort_by (reference_le platform) issue.blocked_by in
    record {
      repo = repo;
      issue_number = issue.number;
      map_number = selected.map_number;
      title = issue.title;
      objective = issue.body;
      labels = sort_by text_le issue.labels;
      blocked_by = some blocked_by;
      issue_updated_at = issue.updated_at;
      digest = digest platform (
          task_identity repo issue.number selected.map_number issue.title issue.body blocked_by
            issue.updated_at);
    }

-- The numbers of the issues that are done.
abbrev done_issues : List TerminalJob → List ℕ
done_issues [] = []
done_issues (t ∷ ts) = elim t.state [
  | TerminalState.done ↦ t.issue_number ∷ done_issues ts
  | TerminalState.cancelled ↦ done_issues ts
]

-- The Job of a selected task, before its claim.
unfoldable pub new_job : String → ℕ → TaskSnapshot → String → String → Job
unfolding token_suffix
new_job id max_review_rounds task base_sha at = record {
  id = id;
  revision = 0;
  state = claimed;
  task = task;
  base_sha = base_sha;
  claim_confirmed = false;
  head_sha = none;
  branch = "agent/issue-" <> show_number task.issue_number <> "-" <> token_suffix id;
  worktree = none;
  analyst = none;
  active_attempt = none;
  attempts = [];
  review_round = 0;
  max_review_rounds = max_review_rounds;
  pending_handoff = none;
  pending_brief = none;
  incident = none;
  analysis = none;
  approval = none;
  automatic_recoveries = none;
  cancellation = none;
  reassessments = some [];
  pull_request = none;
  ci_failure = none;
  ci_rework_count = some 0;
  last_error = none;
  created_at = at;
  updated_at = at;
}

abbrev no_job : Bool → TickAction → String → TickResult
no_job success action message = record {
  success = success;
  action = action;
  job_id = none;
  message = message;
}

module _ {E : Type 0} (deps : Deps E) where
  abbrev pub select_from : List IssueSnapshot → HarnessState → Option SelectedTask
  select_from graph state =
      (select_next_task graph deps.config.ready_label (done_issues state.terminal_jobs)).selected

  unfoldable pub save_new :
      HarnessState → SelectedTask → String → String → String → Action E TickResult
  unfolding new_job task_from_selection save
  save_new state selected base_sha at id =
      let task = task_from_selection deps.platform deps.config.repo selected in
      let job = new_job id deps.config.max_review_rounds task base_sha at in
      let refusal = assert_job_invariant deps.platform job in
      require (is_none refusal) (refusal otherwise "")
      >> (save deps (record state { active_job = some job }) none
          >> pure (
              result true selected_action job (
                "selected "
                <> task.repo
                <> "#"
                <> show_number task.issue_number
                <> "; claim intent is durable")))

  unfoldable pub start_job : HarnessState → SelectedTask → Action E TickResult
  unfolding save_new
  start_job state selected = do
    base_sha ← perform (deps.ports.refresh_base deps.config.local_path deps.config.base_ref)
    at ← now deps
    id ← next_id deps "job"
    save_new state selected base_sha at id

  -- The code and the diagnostic of a failed probe are left out of the result.
  unfoldable pub on_preflight :
      HarnessState → SelectedTask → Outcome (Unit {0}) → Action E TickResult
  unfolding start_job
  on_preflight state selected (throw message) = pure (no_job false preflight_failed message)
  on_preflight state selected (ok _) = start_job state selected

  unfoldable pub on_selected : HarnessState → Option SelectedTask → Action E TickResult
  unfolding on_preflight
  on_selected state none = pure (no_job true TickAction.idle "no executable ready-for-agent issue")
  on_selected state (some selected) =
      attempt (perform deps.ports.preflight) >>= on_preflight state selected

  unfoldable pub select_job : HarnessState → Action E TickResult
  unfolding on_selected select_next_task
  select_job state =
      perform (deps.ports.list_issue_graph deps.config.repo deps.config.ready_label) >>= λ graph.
      on_selected state (select_from graph state)
