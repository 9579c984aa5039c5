-- ===== src/Controller/BlockedSteps.antt =====
-- src/controller/recovery-flow.ts: what a late result and recovered checks do to the ledger.
use herdr_harness_lite.Controller.Action.{Action, now, attempt, perform, ◌>>=◌, pure, System}
use herdr_harness_lite.Controller.SettlementSteps.{settlements, finish_observed_attempt-runs}
use herdr_harness_lite.Controller.Ports.{Deps, RuntimeObservation, Outcome, throw, ok}
use herdr_harness_lite.Model.Job.{
  HarnessState, Job, JobState, blocked, publish_ready, job_state_eq, PullRequestRef,
  PullRequestCheck, CiFailure, PullRequestObservation, PullRequestStatus, CheckBucket,
  check_bucket_eq,
}
use herdr_harness_lite.Base.{
  List, ◌≡◌, inl, inr, some, arith, Option, false, refl, filter, none, if◌then◌else◌, not, is_empty,
  ◌&&◌, ◌/=◌, string_eq, ◌⊎◌, true, is_some, every, ◌==◌, ◌||◌,
}
use herdr_harness_lite.Model.Attempt.{Attempt, AttemptResult, AgentHandle}
use herdr_harness_lite.Controller.Steps.{
  Steps, Checks, goes_on, bind-Runs, answered-Checks, bind-Quiet, if-Runs, May, Among, chosen-Runs,
  Quiet, attempted-Runs, branch-Runs, answered-Runs,
}
use herdr_harness_lite.Controller.Saves.{evolved-Checks, blocked-Checks}
use herdr_harness_lite.Controller.Blocked.{
  reconcile_late, on_late, on_open_ci, reconcile_blocked_ci, on_held, on_held_status, wait_for,
  without_incident, block_new_failure, ci_settled, ci_checks_digest, late_attempt, held_ci,
  settle_ci, wait_input, has_recovered, settle_late,
}
use herdr_harness_lite.Controller.Settlement.{finish_observed_attempt}
use herdr_harness_lite.Controller.Context.{TickResult, is_failed_check, ci_recovered}
use herdr_harness_lite.Controller.Boundary.{refuse}
use herdr_harness_lite.Controller.Delivery.{ci_block}
use herdr_harness_lite.Base.Text.{◌<>◌, show_number}
use herdr_harness_lite.Controller.Closing.{runtime_for}
use herdr_harness_lite.Controller.ClosingSteps.{runtime_for-Quiet}

-- A step to some Jobs is a step to more.
pub wider-Steps :
    {E A : Type 0} (deps : Deps E) (state : HarnessState) (job : Job) (Few Many : Job → Type 0)
    (m : Action E A)
    → ((j : Job) → Few j → Many j)
    → Steps deps state job Few m
    → Steps deps state job Many m
wider-Steps deps state job Few Many m wider st s = elim (st s) [
  | inl quiet ↦ inl quiet
  | inr ((j, i, c, r, t, v, e), end) ↦ inr ((j, i, c, r, wider j t, v, e), tt)
]

-- A late result has been observed of the Job's Attempt, and has settled it: the next Job is in a state that
-- this result allows.
abbrev pub SettledLate : {E : Type 0} → Deps E → Job → Job → Type 0
SettledLate {E} deps job j =
    (a : Attempt) × (handle : AgentHandle) × (o : RuntimeObservation) × (s : System E)
    × (late_attempt job ≡ some (a, handle))
    × ((wait_for deps job a handle s).0 ≡ ok o)
    × (is_some o.result ≡ true)
    × Among (settlements (without_incident job) a o.result) j

-- The checks on which a blocked Job waits have settled: the pull request is observed merged and the Job is
-- done, or it is open, all its checks, of which there are some, pass or are skipped, and the Job may be
-- published.
abbrev pub SettledCi : {E : Type 0} → Deps E → Job → Job → Type 0
SettledCi {E} deps job j =
    (pr : PullRequestRef) × (failure : CiFailure) × (o : PullRequestObservation) × (e : E)
    × (held_ci job ≡ some (pr, failure))
    × ((deps.ports.observe_pull_request job.task.repo pr e).0 ≡ ok o)
    × (((o.status ≡ PullRequestStatus.merged) × (j.state ≡ JobState.done))
        ⊎ ((o.status ≡ PullRequestStatus.is_opened)
            × (is_empty o.required_checks ≡ false)
            × (every (λ c. c.bucket == CheckBucket.pass || c.bucket == CheckBucket.skipping)
                  o.required_checks
                ≡ true)
            × (j.state ≡ publish_ready)))

module _ {E : Type 0} (deps : Deps E) (state : HarnessState) (job : Job) (Wanted : Job → Type 0)
    (may_settle : (j : Job) → SettledLate deps job j → Wanted j) where
  module _ (a : Attempt) (handle : AgentHandle)
      (is_late : late_attempt job ≡ some (a, handle)) where
    settle_late-Checks :
        (o : RuntimeObservation) (r : Option AttemptResult) (s : System E)
        → (wait_for deps job a handle s).0 ≡ ok o
        → o.result ≡ r
        → Checks deps state job Wanted (settle_late deps state job a o r)
    unfolding settle_late
    settle_late-Checks o none s waited e = λ t. inl refl
    settle_late-Checks o (some r) s waited e =
        answered-Checks deps state job Wanted
          (finish_observed_attempt deps state (without_incident job) a o) (λ x. x)
          (wider-Steps deps state job (Among (settlements (without_incident job) a o.result)) Wanted
            (finish_observed_attempt deps state (without_incident job) a o)
            (λ j m. may_settle j (a, handle, o, s, is_late, waited, rw e refl, m))
            (finish_observed_attempt-runs deps state (without_incident job) a o))

    on_late-Checks :
        (o : Outcome RuntimeObservation) (s : System E)
        → (wait_for deps job a handle s).0 ≡ o
        → Checks deps state job Wanted (on_late deps state job a o)
    unfolding on_late
    on_late-Checks (throw message) s waited = λ t. inl refl
    on_late-Checks (ok o) s waited = settle_late-Checks o o.result s waited refl

    wait_for-Quiet : Quiet (wait_for deps job a handle)
    unfolding wait_for
    wait_for-Quiet =
        bind-Quiet (runtime_for deps a)
          (λ runtime. perform (runtime.wait (wait_input deps job a handle)))
          (runtime_for-Quiet deps a) (λ runtime s. refl)

  pub reconcile_late-Checks : Checks deps state job Wanted (reconcile_late deps state job)
  unfolding reconcile_late
  reconcile_late-Checks =
      let ends : Outcome (Option TickResult) → Type 0 = λ r. goes_on r ≡ false in
      let wait : Attempt × AgentHandle → Action E (Option TickResult) =
        λ (a, handle). attempt (wait_for deps job a handle) >>= on_late deps state job a in
      chosen-Runs deps state job Wanted ends (late_attempt job) (pure none) wait (λ s. inl refl)
        (λ (a, handle) is_late.
          attempted-Runs deps state job Wanted ends (wait_for deps job a handle)
            (on_late deps state job a) (wait_for-Quiet a handle is_late)
            (λ o s waited. on_late-Checks a handle is_late o s waited))

module _ {E : Type 0} (deps : Deps E) (state : HarnessState) (job : Job) (Wanted : Job → Type 0)
    (may_block : May Wanted blocked)
    (may_settle : (j : Job) → SettledCi deps job j → Wanted j) where
  block_new_failure-Checks :
      (pr : PullRequestRef) (failed : List PullRequestCheck)
      → Checks deps state job Wanted (block_new_failure deps state job pr failed)
  unfolding now
  block_new_failure-Checks pr failed =
      bind-Runs deps state job Wanted (λ r. goes_on r ≡ false) (now deps)
        (λ at. refuse deps state job (
          ci_block deps job pr
            (record { head_sha = pr.head_sha; observed_at = at; checks = failed })))
        (λ s. refl) (λ at. blocked-Checks deps state job Wanted _ may_block)

  on_open_ci-Checks :
      (pr : PullRequestRef) (failure : CiFailure) (checks : List PullRequestCheck)
      → (has_recovered checks ≡ true → May Wanted publish_ready)
      → Checks deps state job Wanted (on_open_ci deps state job pr failure checks)
  unfolding on_open_ci
  on_open_ci-Checks pr failure checks may_publish =
      let ends : Outcome (Option TickResult) → Type 0 = λ r. goes_on r ≡ false in
      let failed = filter is_failed_check checks in
      let digest_of = ci_checks_digest deps.platform in
      let message =
        "PR #"
        <> show_number pr.number
        <> " required checks recovered on unchanged HEAD "
        <> pr.head_sha in
      let settle : Action E (Option TickResult) =
        settle_ci deps state job publish_ready ci_recovered message in
      let calm : Action E (Option TickResult) =
        if has_recovered checks then settle else pure none in
      if-Runs deps state job Wanted ends
        (not (is_empty failed) && digest_of failed /= digest_of failure.checks)
        (block_new_failure deps state job pr failed) calm (block_new_failure-Checks pr failed)
        (branch-Runs deps state job Wanted ends (has_recovered checks) settle (pure none)
          (λ recovered.
            evolved-Checks deps state job Wanted (ci_settled publish_ready) _
              (may_publish recovered))
          (λ waiting s. inl refl))

  on_held-Checks :
      (pr : PullRequestRef) (failure : CiFailure) (o : Outcome PullRequestObservation) (e : E)
      → held_ci job ≡ some (pr, failure)
      → (deps.ports.observe_pull_request job.task.repo pr e).0 ≡ o
      → Checks deps state job Wanted (on_held deps state job pr failure o)
  unfolding on_held on_held_status
  on_held-Checks pr failure (throw message) e held observed = λ s. inl refl
  on_held-Checks pr failure (ok o) e held observed = by_status o.status refl
    where
      by_status :
          (status : PullRequestStatus)
          → o.status ≡ status
          → Checks deps state job Wanted
              (on_held_status deps state job pr failure o.required_checks status)
      by_status PullRequestStatus.merged same =
          evolved-Checks deps state job Wanted (ci_settled JobState.done) _
            (λ j f. may_settle j (pr, failure, o, e, held, observed, inl (same, f)))
      by_status PullRequestStatus.is_opened same =
          on_open_ci-Checks pr failure o.required_checks (λ recovered j f.
            may_settle j
              (pr, failure, o, e, held, observed, inr (same, ground arith, ground arith, f)))
      by_status PullRequestStatus.closed_unmerged same = λ s. inl refl

  pub reconcile_blocked_ci-Checks :
      Checks deps state job Wanted (reconcile_blocked_ci deps state job)
  unfolding reconcile_blocked_ci
  reconcile_blocked_ci-Checks =
      let ends : Outcome (Option TickResult) → Type 0 = λ r. goes_on r ≡ false in
      let observe : PullRequestRef × CiFailure → Action E (Option TickResult) = λ (pr, failure).
        attempt (perform (deps.ports.observe_pull_request job.task.repo pr))
        >>= on_held deps state job pr failure in
      chosen-Runs deps state job Wanted ends (held_ci job) (pure none) observe (λ s. inl refl)
        (λ (pr, failure) held.
          answered-Runs deps state job Wanted ends
            (deps.ports.observe_pull_request job.task.repo pr) (on_held deps state job pr failure)
            (λ o e observed. on_held-Checks pr failure o e held observed))
