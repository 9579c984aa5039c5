-- ===== src/Controller/Blocked.antt =====
-- src/controller/recovery-flow.ts: the handler of a blocked Job, with the late result of an Attempt and the
-- checks that have recovered; `ciChecksDigest` of src/controller/helpers.ts.
use herdr_harness_lite.Controller.Action.{◌>>=◌, ◌>>◌, Action, perform, pure, now, attempt}
use herdr_harness_lite.Model.Job.{
  Job, PullRequestCheck, JobState, HarnessState, PullRequestRef, CiFailure, PullRequestObservation,
  PullRequestStatus, evolve_job, CheckBucket, publish_ready, check_bucket_eq,
}
use herdr_harness_lite.Controller.Ports.{Deps, Outcome, RuntimeObservation, WaitInput, throw, ok}
use herdr_harness_lite.Model.Platform.{Platform}
use herdr_harness_lite.Base.{
  List, Option, Bool, none, String, not, some, ◌∷◌, is_empty, if◌then◌else◌, filter, sort_by, ◌&&◌,
  ◌==◌, [], every, true, false, ◌/=◌, ◌||◌, string_eq, is_none, option_eq,
}
use herdr_harness_lite.Model.Attempt.{
  Attempt, AgentHandle, settled, attempt_phase_eq, AttemptResult,
}
use herdr_harness_lite.Controller.Context.{
  block, save_job, TickAction, TickResult, bucket_text, is_failed_check, result,
  waiting_for_approval, ci_recovered,
}
use herdr_harness_lite.Model.Digest.{
  Items, Value, obj, no_items, digest, null, field, arr, str, item, end,
}
use herdr_harness_lite.Controller.Settlement.{finish_observed_attempt}
use herdr_harness_lite.Controller.Closing.{runtime_for}
use herdr_harness_lite.Base.Text.{◌<>◌, show_number}
use herdr_harness_lite.Controller.Boundary.{refuse}
use herdr_harness_lite.Model.Incident.{
  infrastructure_exhausted, of_lane, BlockClass, ci_rework_exhausted, block_class_eq,
  incident_lane_eq,
}
use herdr_harness_lite.Controller.Delivery.{ci_block}

abbrev optional_text : Option String → Value
optional_text none = null
optional_text (some t) = str t

abbrev check_value : PullRequestCheck → Value
check_value c = obj (
    field "name" (str c.name) (
      field "state" (str c.state) (
        field "bucket" (str (bucket_text c.bucket)) (
          field "workflow" (str c.workflow) (
            field "link" (str c.link) (
              field "completedAt" (optional_text c.completed_at)
                (field "diagnostic" (optional_text c.diagnostic) end)))))))

check_values : List PullRequestCheck → Items
check_values [] = no_items
check_values (c ∷ cs) = item (check_value c) (check_values cs)

abbrev check_key : PullRequestCheck → String
check_key c = c.workflow <> "\0" <> c.name <> "\0" <> c.link

unfoldable pub ci_checks_digest : Platform → List PullRequestCheck → String
unfolding check_values
ci_checks_digest platform checks =
    digest platform
      (arr (check_values (sort_by (λ a b. platform.locale_le (check_key a) (check_key b)) checks)))

-- The Job whose late result is settled.
abbrev pub without_incident : Job → Job
without_incident job = record job {
  incident = none;
  analysis = none;
  approval = none;
  last_error = none;
}

-- The Attempt of an exhausted infrastructure whose result may come late, with its pane.
unfoldable pub late_attempt : Job → Option (Attempt × AgentHandle)
late_attempt job = elim job.incident [
  | none ↦ none
  | some incident ↦ elim job.active_attempt [
    | none ↦ none
    | some a ↦ elim a.handle [
      | none ↦ none
      | some handle ↦
          if incident.block_class == infrastructure_exhausted
            && incident.attempt_id == some a.id
            && incident.lane == of_lane a.lane
            && a.phase == settled
            && is_none a.result
          then some (a, handle)
          else none
    ]
  ]
]

-- The pull request and the failure that a blocked Job waits on.
unfoldable pub held_ci : Job → Option (PullRequestRef × CiFailure)
held_ci job = elim job.incident [
  | none ↦ none
  | some incident ↦ elim job.pull_request [
    | none ↦ none
    | some pr ↦ elim job.ci_failure [
      | none ↦ none
      | some failure ↦
          if (incident.block_class == BlockClass.ci_failure
              || incident.block_class == ci_rework_exhausted)
            && job.head_sha == some pr.head_sha
            && failure.head_sha == pr.head_sha
          then some (pr, failure)
          else none
    ]
  ]
]

abbrev pub ci_settled : JobState → Job → Job
ci_settled next j = record j {
  state = next;
  incident = none;
  analysis = none;
  ci_failure = none;
  last_error = none;
}

abbrev pub has_recovered : List PullRequestCheck → Bool
has_recovered checks =
    not (is_empty checks)
    && every (λ c. c.bucket == CheckBucket.pass || c.bucket == CheckBucket.skipping) checks

module _ {E : Type 0} (deps : Deps E) where
  -- What is done with an observation that has, or lacks, a result.
  unfoldable pub settle_late :
      HarnessState
      → Job
      → Attempt
      → RuntimeObservation
      → Option AttemptResult
      → Action E (Option TickResult)
  unfolding finish_observed_attempt
  settle_late state job a o none = pure none
  settle_late state job a o (some r) =
      finish_observed_attempt deps state (without_incident job) a o >>= λ x. pure (some x)

  unfoldable pub on_late :
      HarnessState → Job → Attempt → Outcome RuntimeObservation → Action E (Option TickResult)
  unfolding settle_late
  on_late state job a (throw message) = pure none
  on_late state job a (ok o) = settle_late state job a o o.result

  abbrev pub wait_input : Job → Attempt → AgentHandle → WaitInput
  wait_input job a handle = record {
    handle = handle;
    attempt = a;
    result_path = a.result_path;
    expected_job_id = job.id;
    expected_attempt_id = a.id;
    expected_lane = a.lane;
  }

  -- `ctx.runtimeFor(attempt).wait(…)`
  unfoldable pub wait_for : Job → Attempt → AgentHandle → Action E RuntimeObservation
  unfolding runtime_for
  wait_for job a handle =
      runtime_for deps a >>= λ runtime. perform (runtime.wait (wait_input job a handle))

  unfoldable pub reconcile_late : HarnessState → Job → Action E (Option TickResult)
  unfolding late_attempt wait_for on_late
  reconcile_late state job = elim (late_attempt job) [
    | none ↦ pure none
    | some (a, handle) ↦ attempt (wait_for job a handle) >>= on_late state job a
  ]

  abbrev pub settle_ci :
      HarnessState → Job → JobState → TickAction → String → Action E (Option TickResult)
  settle_ci state job next action message = now deps >>= λ at.
      save_job deps state job (evolve_job job at (ci_settled next))
      >> pure (some (result true action job message))

  abbrev pub block_new_failure :
      HarnessState → Job → PullRequestRef → List PullRequestCheck → Action E (Option TickResult)
  block_new_failure state job pr failed = now deps >>= λ at.
      refuse deps state job (
        ci_block deps job pr (record { head_sha = pr.head_sha; observed_at = at; checks = failed }))

  -- `reconcileBlockedCi` at an open pull request.
  unfoldable pub on_open_ci :
      HarnessState
      → Job
      → PullRequestRef
      → CiFailure
      → List PullRequestCheck
      → Action E (Option TickResult)
  unfolding block save_job ci_checks_digest
  on_open_ci state job pr failure checks =
      let failed = filter is_failed_check checks in
      let digest_of = ci_checks_digest deps.platform in
      if not (is_empty failed) && digest_of failed /= digest_of failure.checks
      then block_new_failure state job pr failed
      else if has_recovered checks
      then settle_ci state job publish_ready ci_recovered (
          "PR #"
          <> show_number pr.number
          <> " required checks recovered on unchanged HEAD "
          <> pr.head_sha)
      else pure none

  unfoldable pub on_held_status :
      HarnessState
      → Job
      → PullRequestRef
      → CiFailure
      → List PullRequestCheck
      → PullRequestStatus
      → Action E (Option TickResult)
  unfolding save_job on_open_ci
  on_held_status state job pr failure checks PullRequestStatus.merged =
      settle_ci state job JobState.done TickAction.merged
        ("PR #" <> show_number pr.number <> " merged while CI recovery was held")
  on_held_status state job pr failure checks PullRequestStatus.is_opened =
      on_open_ci state job pr failure checks
  on_held_status state job pr failure checks PullRequestStatus.closed_unmerged = pure none

  unfoldable pub on_held :
      HarnessState
      → Job
      → PullRequestRef
      → CiFailure
      → Outcome PullRequestObservation
      → Action E (Option TickResult)
  unfolding on_held_status
  on_held state job pr failure (throw message) = pure (
      some (
        result false waiting_for_approval job
          ("exact-HEAD CI reconciliation is retryable: " <> message)))
  on_held state job pr failure (ok o) =
      on_held_status state job pr failure o.required_checks o.status

  unfoldable pub reconcile_blocked_ci : HarnessState → Job → Action E (Option TickResult)
  unfolding held_ci on_held
  reconcile_blocked_ci state job = elim (held_ci job) [
    | none ↦ pure none
    | some (pr, failure) ↦
        attempt (perform (deps.ports.observe_pull_request job.task.repo pr))
        >>= on_held state job pr failure
  ]
