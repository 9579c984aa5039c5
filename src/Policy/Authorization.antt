-- ===== src/Policy/Authorization.antt =====
-- src/policy.ts: when a recovery is authorized with no human decision.
use herdr_harness_lite.Policy.Automatic.{
  undispatched_candidate, automatic_recovery_for, shared_ready, rule_ready, provider_ready,
  has_come, recoveries_of, pre_side_effect_provider_failure, action_of, anchor_of, supports,
  provider_of,
}
use herdr_harness_lite.Model.Job.{Job, blocked}
use herdr_harness_lite.Model.Platform.{Platform}
use herdr_harness_lite.Model.Incident.{
  Incident, AutomaticRecoveryCandidate, AnalystAdvice, ProviderScope, provider_transient,
  infrastructure_exhausted, of_lane, fingerprint_of, retry_fresh_worker, recovery_action_eq,
  retry_fresh_reviewer, pre_dispatch, RecoveryAction, same_head,
}
use herdr_harness_lite.Base.{
  Option, ◌≡◌, String, some, some_of, none, ◌≢◌, is_some, true, ◌==◌, arith, includes, false,
  string_eq, option_eq, ◌⊎◌, Bool, [], refl, not,
}
use herdr_harness_lite.Model.Attempt.{Attempt, running, settled}
use herdr_harness_lite.Base.Int.{ℤ, ltb_ℤ}
use herdr_harness_lite.Model.Snapshot.{worker, reviewer}
use herdr_harness_lite.Policy.{allowed_actions_for}
use herdr_harness_lite.Policy.Operator.{holds_of}
use herdr_harness_lite.Base.Text.{is_blank}
use herdr_harness_lite.Model.Diagnostic.{
  SafeRuntimeDiagnostic, is_pre_side_effect_transient_provider_code,
}

-- The conditions that every rule shares: the blocked Job's settled Attempt, without a result, is that of
-- the exhausted incident, the policy allows the action, and no recovery with this fingerprint is recorded.
abbrev pub IsRecoverable : Job → Incident → Attempt → AutomaticRecoveryCandidate → Type 0
IsRecoverable job incident attempt candidate =
    (job.state ≡ blocked)
    × (job.approval ≡ none)
    × (incident.block_class ≡ infrastructure_exhausted)
    × (incident.attempt_id ≡ some attempt.id)
    × (incident.lane ≡ of_lane attempt.lane)
    × (attempt.phase ≡ settled)
    × (attempt.result ≡ none)
    × (includes incident.allowed_actions (action_of candidate) ≡ true)
    × (includes (allowed_actions_for incident.block_class incident.lane) (action_of candidate)
        ≡ true)
    × (some_of (λ e. e.approval.fingerprint == some (fingerprint_of candidate)) (recoveries_of job)
        ≡ false)

-- The advice is about the incident, asks for the given retry, and has a brief.
abbrev pub Supported : Incident → RecoveryAction → AnalystAdvice → Type 0
Supported incident action a =
    (a.incident_id ≡ incident.id) × (a.action ≡ action) × (is_blank a.resolution_brief ≡ false)

-- The time is not before the limit, where the limit is a date.
abbrev pub NotBefore : Option ℤ → ℤ → Type 0
NotBefore none time = Unit {0}
NotBefore (some limit) time = ltb_ℤ time limit ≡ false

-- What the rule of a candidate demands: of a Worker that was never dispatched, advice without unknowns; of
-- a Reviewer, advice and the HEAD of the Job; of a Provider's failure, a transient failure before any side
-- effect, of the lane, the HEAD and the Provider of the Attempt, whose scope is not yet recovered and whose
-- time has come.
abbrev pub HasGrounds :
    Platform
    → Job
    → Incident
    → Attempt
    → Option AnalystAdvice
    → Option String
    → AutomaticRecoveryCandidate
    → Type 0
HasGrounds platform job incident attempt advice now (pre_dispatch f) =
    (attempt.lane ≡ worker)
    × ((a : AnalystAdvice) × (advice ≡ some a)
        × Supported incident retry_fresh_worker a
        × (a.unknowns ≡ []))
HasGrounds platform job incident attempt advice now (same_head f) =
    (attempt.lane ≡ reviewer)
    × ((head : String) × (job.head_sha ≡ some head)
        × (head ≢ "")
        × (attempt.expected_head_sha ≡ some head))
    × ((a : AnalystAdvice) × (advice ≡ some a) × Supported incident retry_fresh_reviewer a)
HasGrounds platform job incident attempt advice now (provider_transient f scope) =
    (attempt.lane ≡ scope.lane)
    × (anchor_of attempt ≡ scope.head_sha)
    × (provider_of attempt ≡ some scope.provider)
    × ((d : SafeRuntimeDiagnostic) × (incident.runtime_diagnostic ≡ some d)
        × (d.failure_code ≡ scope.failure_code))
    × (is_pre_side_effect_transient_provider_code scope.failure_code ≡ true)
    × (pre_side_effect_provider_failure incident.runtime_diagnostic ≡ true)
    × (some_of (λ e. e.scope_fingerprint == some scope.scope_fingerprint) (recoveries_of job)
        ≡ false)
    × ((text : String) × (time : ℤ) × (now ≡ some text)
        × (platform.parse_date text ≡ some time)
        × NotBefore (platform.parse_date scope.not_before) time)

pub holds_of-some :
    {A : Type 0} (test : A → Bool) (o : Option A)
    → holds_of test o ≡ true
    → (a : A) × (o ≡ some a) × (test a ≡ true)
holds_of-some test none h = ground arith
holds_of-some test (some a) h = (a, refl, h)

-- `has_come`, on the dates
abbrev is_not_before : Option ℤ → Option ℤ → Bool
is_not_before parsed not_before = elim parsed [
  | none ↦ false
  | some time ↦ elim not_before [ none ↦ true | some limit ↦ not (ltb_ℤ time limit) ]
]

date-NotBefore :
    (parsed not_before : Option ℤ)
    → is_not_before parsed not_before ≡ true
    → (time : ℤ) × (parsed ≡ some time) × NotBefore not_before time
date-NotBefore none not_before h = ground arith
date-NotBefore (some time) none h = (time, refl, tt)
date-NotBefore (some time) (some limit) h = (time, refl, ground arith)

has_come-lem :
    (platform : Platform) (now : Option String) (not_before : String)
    → has_come platform now not_before ≡ true
    → (text : String) × (time : ℤ) × (now ≡ some text)
      × (platform.parse_date text ≡ some time)
      × NotBefore (platform.parse_date not_before) time
unfolding has_come
has_come-lem platform none not_before h = ground arith
has_come-lem platform (some text) not_before h =
    let (time, parsed, come) =
      date-NotBefore (platform.parse_date text) (platform.parse_date not_before) (ground arith) in
    (text, time, refl, parsed, come)

rule_ready-HasGrounds :
    (platform : Platform) (job : Job) (incident : Incident) (attempt : Attempt)
    (advice : Option AnalystAdvice) (now : Option String) (candidate : AutomaticRecoveryCandidate)
    → rule_ready platform job incident attempt advice now candidate ≡ true
    → HasGrounds platform job incident attempt advice now candidate
unfolding rule_ready provider_ready
rule_ready-HasGrounds platform job incident attempt advice now (pre_dispatch f) h =
    ground (arith, holds_of-some (supports incident retry_fresh_worker (pre_dispatch f)) advice)
rule_ready-HasGrounds platform job incident attempt advice now (same_head f) h =
    ground (arith, holds_of-some (supports incident retry_fresh_reviewer (same_head f)) advice)
rule_ready-HasGrounds platform job incident attempt advice now (provider_transient f scope) h =
    ground (
      arith,
      has_come-lem platform now scope.not_before,
      holds_of-some (λ d. d.failure_code == scope.failure_code) incident.runtime_diagnostic,
    )

-- If a recovery is authorized for a Job, an incident, its candidate and an active Attempt, then the
-- Job is blocked and unapproved, the incident is `infrastructure_exhausted` and about this Attempt
-- and lane, the Attempt is settled without a result, the incident and its class allow the retry, no
-- recorded recovery has the fingerprint, and the rule of the candidate has its grounds.
pub automatic_recovery_for-IsRecoverable :
    (platform : Platform) (job : Job) (advice : Option AnalystAdvice) (now : Option String)
    (incident : Incident) (attempt : Attempt) (candidate : AutomaticRecoveryCandidate)
    → job.incident ≡ some incident
    → incident.automatic_recovery ≡ some candidate
    → job.active_attempt ≡ some attempt
    → is_some (automatic_recovery_for platform job advice now) ≡ true
    → IsRecoverable job incident attempt candidate
      × HasGrounds platform job incident attempt advice now candidate
unfolding automatic_recovery_for shared_ready
automatic_recovery_for-IsRecoverable platform job advice now incident attempt candidate i c a h = (
  ground arith,
  rule_ready-HasGrounds platform job incident attempt advice now candidate (ground arith),
)

-- Once a recovery with the fingerprint of the incident's candidate is recorded, no advice and no
-- time authorize it again.
pub recorded_once :
    (platform : Platform) (job : Job) (advice : Option AnalystAdvice) (now : Option String)
    (incident : Incident) (candidate : AutomaticRecoveryCandidate)
    → job.incident ≡ some incident
    → incident.automatic_recovery ≡ some candidate
    → some_of (λ e. e.approval.fingerprint == some (fingerprint_of candidate)) (recoveries_of job)
      ≡ true
    → automatic_recovery_for platform job advice now ≡ none
unfolding automatic_recovery_for shared_ready
recorded_once platform job advice now incident candidate i c h = ground arith

-- If a recovery of a Provider's failure is authorized at a time, then, where both times are dates,
-- the time is not before the candidate's `not_before`, the diagnostic shows no side effect, the
-- Attempt is of the lane and at the HEAD of the candidate, and no recorded recovery has its scope.
pub provider_authorized :
    (platform : Platform) (job : Job) (advice : Option AnalystAdvice) (now : String)
    (time limit : ℤ) (incident : Incident) (attempt : Attempt) (fingerprint : String)
    (scope : ProviderScope)
    → job.incident ≡ some incident
    → incident.automatic_recovery ≡ some (provider_transient fingerprint scope)
    → job.active_attempt ≡ some attempt
    → platform.parse_date now ≡ some time
    → platform.parse_date scope.not_before ≡ some limit
    → is_some (automatic_recovery_for platform job advice (some now)) ≡ true
    → (ltb_ℤ time limit ≡ false)
      × (pre_side_effect_provider_failure incident.runtime_diagnostic ≡ true)
      × (attempt.lane ≡ scope.lane)
      × (anchor_of attempt ≡ scope.head_sha)
      × (some_of (λ e. e.scope_fingerprint == some scope.scope_fingerprint) (recoveries_of job)
          ≡ false)
unfolding automatic_recovery_for shared_ready rule_ready provider_ready has_come
provider_authorized platform job advice now time limit incident attempt fingerprint scope i c a t l
      h =
    ground arith

-- A candidate that needs no Provider is of an Attempt that neither ran nor settled. It asks for a
-- fresh Attempt of the same lane, and a Reviewer's expects the HEAD of the Job.
pub undispatched_candidate-lem :
    (platform : Platform) (job : Job) (attempt : Attempt) (candidate : AutomaticRecoveryCandidate)
    → undispatched_candidate platform job attempt ≡ some candidate
    → (attempt.phase ≢ running)
      × (attempt.phase ≢ settled)
      × (((attempt.lane ≡ worker) × (action_of candidate ≡ retry_fresh_worker))
          ⊎ ((attempt.lane ≡ reviewer)
              × (action_of candidate ≡ retry_fresh_reviewer)
              × (attempt.expected_head_sha ≡ job.head_sha)))
unfolding undispatched_candidate
undispatched_candidate-lem platform job attempt candidate h = ground arith
