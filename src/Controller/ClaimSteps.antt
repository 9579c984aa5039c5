-- ===== src/Controller/ClaimSteps.antt =====
-- src/controller/task-lifecycle.ts: what a tick of a claimed Job does to the ledger.
use herdr_harness_lite.Controller.Action.{◌>>=◌, System, Action, perform, attempt, now, ◌>>◌, pure}
use herdr_harness_lite.Controller.Ports.{Deps, Outcome, throw, ok, Call}
use herdr_harness_lite.Model.Job.{
  HarnessState, Job, blocked, worker_ready, WorktreeHandle, AnalystSession, job_state_eq,
  evolve_job,
}
use herdr_harness_lite.Base.{
  List, includes, ◌≡◌, true, Option, inl, some, not, false, refl, none, is_none, string_eq, ◌⊎◌,
  arith, inr, ◌∙◌, String, ◌/=◌, ◌||◌, nat_eq, option_eq,
}
use herdr_harness_lite.Controller.Claim.{
  claim_task, on_worktree, make_worktree, start_analyst, on_issue, on_frontier, advance_claim,
  on_analyst, confirm_claim, on_claimed, claim_done, worktree_made, worktree_input, claim_input,
  claimed_before, worker_may_start, worktree_path,
}
use herdr_harness_lite.Controller.Lifecycle.{select_from, task_from_selection}
use herdr_harness_lite.Controller.DeliverySteps.{Steps→Step}
use herdr_harness_lite.Model.Issue.{IssueSnapshot, SelectedTask, opened, issue_state_eq}
use herdr_harness_lite.Controller.Steps.{
  Steps, Any, branch-Runs, answered-Runs, StepTo, performed-Runs,
}
use herdr_harness_lite.Controller.Saves.{block-Steps, evolved_to-Steps}
use herdr_harness_lite.Controller.Context.{
  TickResult, BlockInput, save_job, block, result, worktree_created,
}

-- The port has answered so in some environment.
abbrev pub Answered : {E A : Type 0} → Call E A → A → Type 0
Answered {E} call a = (e : E) × ((call e).0 ≡ ok a)

-- The task that is claimed: its issue is what the port gets for the Job's issue, and is open, and its digest
-- is the Job's. It is the Job's own if the issue carries the claim's label, and else it is selected again from
-- the listed graph, with the number and the Map of the Job's, and the port has claimed it.
abbrev pub Claimable :
    {E : Type 0} → Deps E → HarnessState → Job → IssueSnapshot → SelectedTask → Type 0
Claimable deps state job issue selected =
    Answered (deps.ports.get_issue deps.config.repo job.task.issue_number) issue
    × (issue.state ≡ opened)
    × ((task_from_selection deps.platform deps.config.repo selected).digest ≡ job.task.digest)
    × (((includes issue.labels deps.config.claim_label ≡ true)
          × (selected ≡ claimed_before deps job issue))
        ⊎ ((graph : List IssueSnapshot) × Answered
              (deps.ports.list_issue_graph deps.config.repo deps.config.ready_label) graph
            × (select_from deps graph state ≡ some selected)
            × (selected.issue.number ≡ job.task.issue_number)
            × (selected.map_number ≡ job.task.map_number)
            × Answered (deps.ports.claim_issue (claim_input deps job selected)) tt))

-- The claim is confirmed, for a task that is claimed and an Analyst that the port has started.
abbrev pub Confirmed : {E : Type 0} → Deps E → HarnessState → Job → Job → Type 0
Confirmed deps state job j =
    (job.claim_confirmed ≡ false)
    × (j.claim_confirmed ≡ true)
    × (j.state ≡ job.state)
    × ((issue : IssueSnapshot) × (selected : SelectedTask) × (session : AnalystSession) × Claimable
          deps state job issue selected
        × Answered (deps.ports.start_analyst job.id job.task) session
        × (j.analyst ≡ some session))

-- The Job is ready for a Worker: its claim was confirmed, and its worktree is the one that it had, or one
-- that the port has created with the branch and at the path that were asked for.
abbrev pub Settled : {E : Type 0} → Deps E → Job → Job → Type 0
Settled deps job j =
    (job.claim_confirmed ≡ true)
    × (is_none job.analyst ≡ false)
    × (j.state ≡ worker_ready)
    × ((w : WorktreeHandle) × (j.worktree ≡ some w)
        × ((job.worktree ≡ some w)
            ⊎ ((job.worktree ≡ none)
                × (w.branch ≡ job.branch)
                × (w.path ≡ worktree_path deps job)
                × Answered (deps.ports.create_worktree (worktree_input deps job)) w)))

abbrev pub Advances : {E : Type 0} → Deps E → HarnessState → Job → Job → Type 0
Advances deps state job j = (j.state ≡ blocked) ⊎ (Confirmed deps state job j ⊎ Settled deps job j)

same-lem : (a b c d : String) → (a /= b || c /= d) ≡ false → (a ≡ b) × (c ≡ d)
same-lem a b c d h = ground arith

module _ {E : Type 0} (deps : Deps E) (state : HarnessState) (job : Job) where
  block_claim-Steps :
      (input : BlockInput)
      → Steps deps state job (Advances deps state job) (block deps state job input)
  block_claim-Steps input =
      block-Steps deps state job (Advances deps state job) input (λ j b. inl b)

  module _ (unconfirmed : job.claim_confirmed ≡ false) (issue : IssueSnapshot) where
    on_analyst-Steps :
        (selected : SelectedTask) (r : Outcome AnalystSession) (e : E)
        → Claimable deps state job issue selected
        → (deps.ports.start_analyst job.id job.task e).0 ≡ r
        → Steps deps state job (Advances deps state job) (on_analyst deps state job r)
    unfolding on_analyst evolve_job
    on_analyst-Steps selected (throw message) e claimable started = block_claim-Steps _
    on_analyst-Steps selected (ok session) e claimable started =
        evolved_to-Steps deps state job (Advances deps state job) (claim_done deps session) _ (λ at.
          inr (
            inl
              (unconfirmed, refl, refl, (issue, selected, session, claimable, (e, started), refl))))

    start_analyst-Steps :
        (selected : SelectedTask)
        → Claimable deps state job issue selected
        → Steps deps state job (Advances deps state job) (start_analyst deps state job)
    unfolding start_analyst
    start_analyst-Steps selected claimable =
        answered-Runs deps state job (Advances deps state job) Any
          (deps.ports.start_analyst job.id job.task) (on_analyst deps state job)
          (λ r e started. on_analyst-Steps selected r e claimable started)

    on_claimed-Steps :
        (selected : SelectedTask) (r : Outcome (Unit {0}))
        → (r ≡ ok tt → Claimable deps state job issue selected)
        → Steps deps state job (Advances deps state job) (on_claimed deps state job r)
    on_claimed-Steps selected (throw message) claimable = λ s. inl refl
    on_claimed-Steps selected (ok u) claimable = start_analyst-Steps selected (claimable refl)

    module _
        (found : Answered (deps.ports.get_issue deps.config.repo job.task.issue_number) issue) where
      claim_again-Steps :
          includes issue.labels deps.config.claim_label ≡ true
          → Steps deps state job
              (Advances deps state job)
              (claim_task deps state job issue true (claimed_before deps job issue))
      unfolding claim_task
      claim_again-Steps labelled =
          branch-Runs deps state job (Advances deps state job) Any
            ((task_from_selection deps.platform deps.config.repo
                  (claimed_before deps job issue)).digest
                /= job.task.digest
              || issue.state /= opened)
            _ (start_analyst deps state job) (λ stale. block_claim-Steps _)
            (λ fresh.
              start_analyst-Steps (claimed_before deps job issue)
                (found, ground arith, ground arith, inl (labelled, refl)))

      claim_new-Steps :
          (graph : List IssueSnapshot) (selected : SelectedTask)
          → Answered (deps.ports.list_issue_graph deps.config.repo deps.config.ready_label) graph
          → select_from deps graph state ≡ some selected
          → selected.issue.number ≡ job.task.issue_number
          → selected.map_number ≡ job.task.map_number
          → Steps deps state job
              (Advances deps state job)
              (claim_task deps state job issue false selected)
      unfolding claim_task
      claim_new-Steps graph selected listed chosen same_issue same_map =
          branch-Runs deps state job (Advances deps state job) Any
            ((task_from_selection deps.platform deps.config.repo selected).digest /= job.task.digest
              || issue.state /= opened)
            _ _ (λ stale. block_claim-Steps _)
            (λ fresh.
              answered-Runs deps state job (Advances deps state job) Any
                (deps.ports.claim_issue (claim_input deps job selected)) (on_claimed deps state job)
                (λ r e claimed_so. on_claimed-Steps selected r (λ k. (
                  found,
                  ground arith,
                  ground arith,
                  inr (graph, listed, chosen, same_issue, same_map, (e, claimed_so ∙ k)),
                ))))

      on_frontier-Steps :
          (graph : List IssueSnapshot) (o : Option SelectedTask)
          → Answered (deps.ports.list_issue_graph deps.config.repo deps.config.ready_label) graph
          → select_from deps graph state ≡ o
          → Steps deps state job (Advances deps state job) (on_frontier deps state job issue o)
      unfolding on_frontier
      on_frontier-Steps graph none listed chosen = block_claim-Steps _
      on_frontier-Steps graph (some selected) listed chosen =
          branch-Runs deps state job (Advances deps state job) Any
            (selected.issue.number /= job.task.issue_number
              || selected.map_number /= job.task.map_number)
            _ _ (λ changed. block_claim-Steps _)
            (λ same. claim_new-Steps graph selected listed chosen (ground arith) (ground arith))

      on_issue-Steps :
          Steps deps state job (Advances deps state job) (on_issue deps state job issue)
      unfolding on_issue
      on_issue-Steps =
          branch-Runs deps state job (Advances deps state job) Any
            (includes issue.labels deps.config.claim_label) _ _ claim_again-Steps
            (λ unlabelled.
              performed-Runs deps state job (Advances deps state job) Any
                (deps.ports.list_issue_graph deps.config.repo deps.config.ready_label)
                (λ graph. on_frontier deps state job issue (select_from deps graph state))
                (λ graph e listed.
                  on_frontier-Steps graph (select_from deps graph state) (e, listed) refl))

  module _ (confirmed : job.claim_confirmed ≡ true)
      (has_analyst : is_none job.analyst ≡ false) where
    on_worktree-Steps :
        (r : Outcome WorktreeHandle) (e : E)
        → job.worktree ≡ none
        → (deps.ports.create_worktree (worktree_input deps job) e).0 ≡ r
        → Steps deps state job (Advances deps state job) (on_worktree deps state job r)
    unfolding on_worktree evolve_job
    on_worktree-Steps (throw message) e missing made = λ s. inl refl
    on_worktree-Steps (ok w) e missing made =
        branch-Runs deps state job (Advances deps state job) Any
          (w.branch /= job.branch || w.path /= worktree_path deps job) _ _
          (λ other. block_claim-Steps _)
          (λ same.
            evolved_to-Steps deps state job (Advances deps state job) (worktree_made deps w) _
              (λ at. inr (
                inr (
                  confirmed,
                  has_analyst,
                  refl,
                  (
                    w,
                    refl,
                    let (branch, path) =
                          same-lem w.branch job.branch w.path (worktree_path deps job) same in
                        inr (missing, branch, path, (e, made)),
                  ),
                ))))

    had_worktree-Steps :
        (w : WorktreeHandle) (answer : TickResult)
        → job.worktree ≡ some w
        → Steps deps state job (Advances deps state job) (
            now deps >>= λ at.
            save_job deps state job (evolve_job job at (worker_may_start deps)) >> pure answer)
    unfolding evolve_job
    had_worktree-Steps w answer had =
        evolved_to-Steps deps state job (Advances deps state job) (worker_may_start deps) answer
          (λ at. inr (inr (confirmed, has_analyst, refl, (w, had, inl had))))

    make_worktree-Steps :
        Steps deps state job (Advances deps state job) (make_worktree deps state job)
    unfolding make_worktree
    make_worktree-Steps = go job.worktree refl
      where
        accept : Action E TickResult
        accept = now deps >>= λ at.
            save_job deps state job (evolve_job job at (worker_may_start deps))
            >> pure (
                result true worktree_created job "existing worktree accepted; worker lane is ready")

        create : Action E TickResult
        create =
            attempt (perform (deps.ports.create_worktree (worktree_input deps job)))
            >>= on_worktree deps state job

        go :
            (o : Option WorktreeHandle)
            → job.worktree ≡ o
            → Steps deps state job
                (Advances deps state job)
                (elim o [ none ↦ create | some w ↦ accept ])
        go none missing =
            answered-Runs deps state job (Advances deps state job) Any
              (deps.ports.create_worktree (worktree_input deps job)) (on_worktree deps state job)
              (λ r e made. on_worktree-Steps r e missing made)
        go (some w) had = had_worktree-Steps w _ had

  advance_claim-runs : Steps deps state job (Advances deps state job) (advance_claim deps state job)
  unfolding advance_claim confirm_claim
  advance_claim-runs =
      branch-Runs deps state job (Advances deps state job) Any (not job.claim_confirmed) _ _
        (λ n.
          performed-Runs deps state job (Advances deps state job) Any
            (deps.ports.get_issue deps.config.repo job.task.issue_number) (on_issue deps state job)
            (λ issue e found. on_issue-Steps (ground arith) issue (e, found)))
        (λ c.
          branch-Runs deps state job (Advances deps state job) Any (is_none job.analyst) _ _
            (λ no_analyst. block_claim-Steps _)
            (λ has_analyst. make_worktree-Steps (ground arith) has_analyst))

  -- A run of `advance_claim` leaves the ledger as it was, or with the next revision of the same Job, which
  -- satisfies the invariant. It is blocked; or its claim is now confirmed, for an open issue whose task has the
  -- Job's digest and is still the frontier or was claimed before, and its Analyst is started; or the claim was
  -- confirmed and it is ready for a Worker, in the worktree that it had or in one with the branch and the path
  -- that were asked for.
  pub advance_claim-Advances :
      (s : System E)
      → StepTo deps.platform state job
          (Advances deps state job)
          s.ledger
          (advance_claim deps state job s).1.ledger
  advance_claim-Advances s =
      Steps→Step deps state job (Advances deps state job) (advance_claim deps state job) s
        advance_claim-runs
