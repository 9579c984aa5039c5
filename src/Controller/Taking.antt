-- ===== src/Controller/Taking.antt =====
-- src/controller/task-lifecycle.ts: how a tick without a Job takes a task.
use herdr_harness_lite.Controller.Action.{
  ◌>>=◌, ◌>>◌, System, now, next_id, validate_state, perform, Action, attempt, active_revision,
  require, save, pure,
}
use herdr_harness_lite.Controller.Ports.{Deps, Outcome, throw, ok}
use herdr_harness_lite.Model.Job.{HarnessState, Job, claimed}
use herdr_harness_lite.Controller.Lifecycle.{
  on_selected, on_preflight, save_new, start_job, select_job, new_job, select_from,
  task_from_selection,
}
use herdr_harness_lite.Base.{
  List, Option, ◌≡◌, ◌⊎◌, String, some, inl, refl, false, none, true, is_none, ◌otherwise◌, sym,
  inr, ap,
}
use herdr_harness_lite.Model.Issue.{IssueSnapshot, SelectedTask}
use herdr_harness_lite.Controller.Slot.{Reaches, bind-Reaches, Reaches-answer, save-Reaches}
use herdr_harness_lite.Controller.Context.{TickResult, result, selected_action}
use herdr_harness_lite.Ledger.{assert_job_invariant}
use herdr_harness_lite.Base.Text.{◌<>◌, show_number}
use herdr_harness_lite.Controller.Sequence.{bind-cases}
use mathlib.Core.Path.{subst}

-- The ledger had no Job, and has a new one, whose task is selected from the listed graph of issues, which
-- satisfies the invariant, and whose claim is not yet confirmed. The terminal Jobs are those of the state.
abbrev pub Taken :
    {E : Type 0}
    → Deps E
    → HarnessState
    → Outcome (List IssueSnapshot)
    → HarnessState
    → HarnessState
    → Type 0
Taken deps state listed before after =
    (graph : List IssueSnapshot) × (selected : SelectedTask) × (job : Job) × (listed ≡ ok graph)
    × (select_from deps graph state ≡ some selected)
    × (job.task ≡ task_from_selection deps.platform deps.config.repo selected)
    × (job.state ≡ claimed)
    × (job.revision ≡ 0)
    × (job.claim_confirmed ≡ false)
    × (assert_job_invariant deps.platform job ≡ none)
    × (active_revision deps before ≡ none)
    × (after ≡ record state { active_job = some job })

module _ {E : Type 0} (deps : Deps E) (state : HarnessState)
    (listed : Outcome (List IssueSnapshot)) where
  save_new-Takes :
      (graph : List IssueSnapshot) (selected : SelectedTask) (base_sha at id : String)
      → listed ≡ ok graph
      → select_from deps graph state ≡ some selected
      → Reaches (Taken deps state listed) (save_new deps state selected base_sha at id)
  unfolding save_new new_job validate_state
  save_new-Takes graph selected base_sha at id found chosen =
      let task = task_from_selection deps.platform deps.config.repo selected in
      let job = new_job id deps.config.max_review_rounds task base_sha at in
      let refusal = assert_job_invariant deps.platform job in
      let next : HarnessState = record state { active_job = some job } in
      let answer = result true selected_action job (
        "selected "
        <> task.repo
        <> "#"
        <> show_number task.issue_number
        <> "; claim intent is durable") in
      bind-Reaches (Taken deps state listed) (require (is_none refusal) (refusal otherwise ""))
        (λ _. save deps next none >> pure answer) (λ s. refl)
        (λ _. Reaches-answer (Taken deps state listed) (save deps next none) answer (
          save-Reaches (Taken deps state listed) deps next none (λ before after e matched is_valid.
            (graph, selected, job, found, chosen, refl, refl, refl, refl, is_valid, matched, e))))

  start_job-Takes :
      (graph : List IssueSnapshot) (selected : SelectedTask)
      → listed ≡ ok graph
      → select_from deps graph state ≡ some selected
      → Reaches (Taken deps state listed) (start_job deps state selected)
  unfolding start_job now next_id
  start_job-Takes graph selected found chosen =
      let refresh = perform (deps.ports.refresh_base deps.config.local_path deps.config.base_ref) in
      let with_id : String → String → String → Action E TickResult =
        λ base at id. save_new deps state selected base at id in
      let with_time : String → String → Action E TickResult =
        λ base at. next_id deps "job" >>= with_id base at in
      let with_base : String → Action E TickResult = λ base. now deps >>= with_time base in
      bind-Reaches (Taken deps state listed) refresh with_base (λ s. refl)
        (λ base.
          bind-Reaches (Taken deps state listed) (now deps) (with_time base) (λ s. refl)
            (λ at.
              bind-Reaches (Taken deps state listed) (next_id deps "job") (with_id base at)
                (λ s. refl) (λ id. save_new-Takes graph selected base at id found chosen)))

  on_preflight-Takes :
      (graph : List IssueSnapshot) (selected : SelectedTask) (r : Outcome (Unit {0}))
      → listed ≡ ok graph
      → select_from deps graph state ≡ some selected
      → Reaches (Taken deps state listed) (on_preflight deps state selected r)
  unfolding on_preflight
  on_preflight-Takes graph selected (throw message) found chosen = λ s. inl refl
  on_preflight-Takes graph selected (ok u) found chosen =
      start_job-Takes graph selected found chosen

  on_selected-Takes :
      (graph : List IssueSnapshot) (o : Option SelectedTask)
      → listed ≡ ok graph
      → select_from deps graph state ≡ o
      → Reaches (Taken deps state listed) (on_selected deps state o)
  unfolding on_selected
  on_selected-Takes graph none found chosen = λ s. inl refl
  on_selected-Takes graph (some selected) found chosen =
      bind-Reaches (Taken deps state listed) (attempt (perform deps.ports.preflight))
        (on_preflight deps state selected) (λ s. refl)
        (λ r. on_preflight-Takes graph selected r found chosen)

-- A run of `select_job` leaves the ledger as it was, or takes a task: the ledger had no active Job, and has a
-- new one in state claimed, of revision 0 and without a confirmed claim, which satisfies the invariant and
-- whose task is what `select_next_task` selects, for the given state, from the graph of issues that the
-- call of the port lists for the configured repository and label. The terminal Jobs are kept.
pub select_job-Takes :
    {E : Type 0} (deps : Deps E) (state : HarnessState) (s : System E)
    → ((select_job deps state s).1.ledger ≡ s.ledger)
      ⊎ Taken deps state
          (deps.ports.list_issue_graph deps.config.repo deps.config.ready_label s.env).0
          s.ledger
          (select_job deps state s).1.ledger
unfolding select_job
select_job-Takes deps state s =
    let listed = (deps.ports.list_issue_graph deps.config.repo deps.config.ready_label s.env).0 in
    let list = perform (deps.ports.list_issue_graph deps.config.repo deps.config.ready_label) in
    let select : List IssueSnapshot → Action _ TickResult =
      λ graph. on_selected deps state (select_from deps graph state) in
    elim (bind-cases list select s) [
      | inl (graph, found, e) ↦
          subst (λ p. (p.1.ledger ≡ s.ledger) ⊎ Taken deps state listed s.ledger p.1.ledger) (sym e)
            (on_selected-Takes deps state listed graph (select_from deps graph state) found refl
              (list s).1)
      | inr (message, e) ↦ inl (ap (λ p. p.1.ledger) e)
    ]
