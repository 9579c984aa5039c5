-- ===== src/Controller/WaitingSteps.antt =====
-- src/controller/recovery-flow.ts: what a tick of a blocked Job does to the ledger.
use herdr_harness_lite.Controller.Action.{
  ◌>>=◌, now, next_id, Action, attempt, perform, require, fail, pure, System, or_else,
}
use herdr_harness_lite.Controller.Ports.{Deps, Outcome, ok, throw}
use herdr_harness_lite.Model.Job.{
  HarnessState, Job, AnalystSession, recovery_approved, job_state_eq, evolve_job, blocked,
}
use herdr_harness_lite.Controller.Diagnosis.{
  record_answer, diagnose, on_turn, run_diagnosis, record_exhausted, pack_of, dedupe_evidence,
  still_missing,
}
use herdr_harness_lite.Controller.Waiting.{
  diagnose_safely, on_diagnosed, use_advice, ask_analyst, decide, use_analysis, analyse,
  diagnose_incident, backoff_until, wait_or_analyse, is_provider_rule, analysed, diagnose_or_wait,
}
use herdr_harness_lite.Model.Evidence.{
  build_evidence_pack, EvidenceItem, EvidencePack, AnalystAnswer, AnalystTurn, advised,
  need_evidence,
}
use herdr_harness_lite.Base.{
  List, ℕ, String, suc, refl, ◌+◌, true, Option, zero, ◌++◌, some, none, inl, if◌then◌else◌, ◌≡◌,
  ◌⊎◌, inr, ◌∙◌,
}
use herdr_harness_lite.Model.Incident.{Incident, AnalystAdvice, Approval, policy_rule}
use herdr_harness_lite.Controller.Steps.{
  Quiet, bind-Quiet, Steps, option-Runs, bind-Runs, Any, if-Runs, May, chosen-Runs, StepTo,
  or_else-Steps,
}
use herdr_harness_lite.Controller.Saves.{timed-Steps, saved-Steps, evolve_job-Follows}
use herdr_harness_lite.Controller.Context.{TickResult, result, waiting_for_approval}
use herdr_harness_lite.Policy.Automatic.{Authorized, automatic_recovery_for}
use herdr_harness_lite.Controller.Boundary.{authorize_automatic_recovery}
use herdr_harness_lite.Controller.BoundarySteps.{authorize-Steps, HasGrant}
use herdr_harness_lite.Controller.BlockedSteps.{
  SettledLate, SettledCi, reconcile_late-Checks, reconcile_blocked_ci-Checks,
}
use herdr_harness_lite.Controller.Blocked.{reconcile_blocked_ci, reconcile_late}
use herdr_harness_lite.Controller.DeliverySteps.{Steps→Step}

module _ {E : Type 0} (deps : Deps E) where
  -- A diagnosis leaves the ledger alone.
  record_answer-Quiet :
      (job : Job) (incident : Incident) (pack : EvidencePack) (answer : AnalystAnswer)
      → Quiet (record_answer deps job incident pack answer)
  unfolding record_answer now next_id
  record_answer-Quiet job incident pack answer s = refl

  on_turn-Quiet :
      (job : Job) (incident : Incident) (items : List EvidenceItem) (missing : List String)
      (next : List EvidenceItem → List String → Action E AnalystAdvice) (turn : AnalystTurn)
      → ((more : List EvidenceItem) (rest : List String) → Quiet (next more rest))
      → Quiet (on_turn deps job incident items missing next turn)
  unfolding on_turn build_evidence_pack
  on_turn-Quiet job incident items missing next (advised answer) k =
      record_answer-Quiet job incident (pack_of deps job incident items missing) answer
  on_turn-Quiet job incident items missing next (need_evidence requests) k =
      let go_on : List EvidenceItem → Action E AnalystAdvice = λ collected.
        next (dedupe_evidence (items ++ collected)) (still_missing missing collected) in
      bind-Quiet (require _ _) (λ _. perform (deps.ports.collect_evidence job requests) >>= go_on)
        (λ s. refl)
        (λ _.
          bind-Quiet (perform (deps.ports.collect_evidence job requests)) go_on (λ s. refl)
            (λ collected. k _ _))

  diagnose-Quiet :
      (job : Job) (incident : Incident) (session : AnalystSession) (left turn : ℕ)
      (items : List EvidenceItem) (missing : List String)
      → Quiet (diagnose deps job incident session left turn items missing)
  unfolding diagnose build_evidence_pack record_exhausted now next_id
  diagnose-Quiet job incident session zero turn items missing = λ s. refl
  diagnose-Quiet job incident session (suc left) turn items missing =
      let next = diagnose deps job incident session left (turn + 1) in
      let pack = pack_of deps job incident items missing in
      bind-Quiet (perform (deps.ports.analyst_turn session job pack turn))
        (on_turn deps job incident items missing next) (λ s. refl)
        (λ answer.
          on_turn-Quiet job incident items missing next answer
            (diagnose-Quiet job incident session left (turn + 1)))

  on_diagnosed-Quiet :
      (incident : Incident) (r : Outcome AnalystAdvice) → Quiet (on_diagnosed deps incident r)
  unfolding on_diagnosed now next_id
  on_diagnosed-Quiet incident (ok advice) s = refl
  on_diagnosed-Quiet incident (throw message) s = refl

  diagnose_safely-Quiet :
      (job : Job) (incident : Incident) (session : AnalystSession)
      → Quiet (diagnose_safely deps job incident session)
  unfolding diagnose_safely run_diagnosis
  diagnose_safely-Quiet job incident session =
      bind-Quiet (attempt (run_diagnosis deps job incident session)) (on_diagnosed deps incident)
        (bind-Quiet (perform (deps.ports.initial_evidence job))
          (λ (items, missing).
            diagnose deps job incident session deps.config.max_analyst_turns 1
              (dedupe_evidence items) missing)
          (λ s. refl)
          (λ (items, missing).
            diagnose-Quiet job incident session deps.config.max_analyst_turns 1
              (dedupe_evidence items) missing))
        (on_diagnosed-Quiet incident)

module _ {E : Type 0} (deps : Deps E) (state : HarnessState) (job : Job) (Wanted : Job → Type 0)
    (may_stay : May Wanted job.state)
    (may_recover : (advice : Option AnalystAdvice) (automatic : Authorized) (at : String)
      → automatic_recovery_for deps.platform job advice (some at) ≡ some automatic
      → (j : Job) → HasGrant advice automatic at j
      → Wanted j) where
  use_advice-Steps :
      (incident : Incident) (advice : AnalystAdvice) (at : String)
      → Steps deps state job Wanted (use_advice deps state job incident advice at)
  unfolding use_advice
  use_advice-Steps incident advice at =
      chosen-Runs deps state job Wanted Any
        (automatic_recovery_for deps.platform job (some advice) (some at)) _
        (λ automatic.
          authorize_automatic_recovery deps state job incident (some advice) automatic at)
        (saved-Steps deps state job Wanted (evolve_job job at (analysed deps advice)) _
          (evolve_job-Follows deps state job Wanted at _ may_stay))
        (λ automatic e.
          authorize-Steps deps state job Wanted incident (some advice) automatic at
            (may_recover (some advice) automatic at e))

  use_analysis-Steps :
      (incident : Incident) (advice : AnalystAdvice) (at : String)
      → Steps deps state job Wanted (use_analysis deps state job incident advice at)
  unfolding use_analysis
  use_analysis-Steps incident advice at =
      chosen-Runs deps state job Wanted Any
        (automatic_recovery_for deps.platform job (some advice) (some at)) (pure _)
        (λ automatic.
          authorize_automatic_recovery deps state job incident (some advice) automatic at)
        (λ s. inl refl)
        (λ automatic e.
          authorize-Steps deps state job Wanted incident (some advice) automatic at
            (may_recover (some advice) automatic at e))

  ask_analyst-Steps :
      (incident : Incident) (session : AnalystSession)
      → Steps deps state job Wanted (ask_analyst deps state job incident session)
  unfolding ask_analyst
  ask_analyst-Steps incident session =
      bind-Runs deps state job Wanted Any (diagnose_safely deps job incident session)
        (λ advice. now deps >>= use_advice deps state job incident advice)
        (diagnose_safely-Quiet deps job incident session)
        (λ advice.
          timed-Steps deps state job Wanted (use_advice deps state job incident advice)
            (use_advice-Steps incident advice))

  analyse-Steps :
      (incident : Incident) (at : String)
      → Steps deps state job Wanted (analyse deps state job incident at)
  unfolding analyse
  analyse-Steps incident at =
      let ask : Action E TickResult = elim job.analyst [
        | none ↦ pure (
            result true waiting_for_approval job
              "Analyst is unavailable; incident can only be held or cancelled")
        | some session ↦ ask_analyst deps state job incident session
      ] in
      option-Runs deps state job Wanted Any job.analysis ask
        (λ advice. use_analysis deps state job incident advice at)
        (option-Runs deps state job Wanted Any job.analyst (pure _)
          (ask_analyst deps state job incident) (λ s. inl refl) (ask_analyst-Steps incident))
        (λ advice. use_analysis-Steps incident advice at)

  wait_or_analyse-Steps :
      (incident : Incident) (at : String) (until : Option String)
      → Steps deps state job Wanted (wait_or_analyse deps state job incident at until)
  wait_or_analyse-Steps incident at (some until) = λ s. inl refl
  wait_or_analyse-Steps incident at none = analyse-Steps incident at

  decide-Steps :
      (incident : Incident) (at : String)
      → Steps deps state job Wanted (decide deps state job incident at)
  unfolding decide
  decide-Steps incident at =
      let until = backoff_until deps job incident at in
      let wait = wait_or_analyse deps state job incident at until in
      let grant : Authorized → Action E TickResult =
        λ automatic. authorize_automatic_recovery deps state job incident none automatic at in
      chosen-Runs deps state job Wanted Any
        (automatic_recovery_for deps.platform job none (some at)) wait
        (λ automatic. if is_provider_rule automatic then grant automatic else wait)
        (wait_or_analyse-Steps incident at until)
        (λ automatic e.
          if-Runs deps state job Wanted Any (is_provider_rule automatic) (grant automatic) wait
            (authorize-Steps deps state job Wanted incident none automatic at
              (may_recover none automatic at e))
            (wait_or_analyse-Steps incident at until))

  pub diagnose_incident-Steps : Steps deps state job Wanted (diagnose_incident deps state job)
  unfolding diagnose_incident
  diagnose_incident-Steps =
      option-Runs deps state job Wanted Any job.incident (fail _)
        (λ incident. now deps >>= decide deps state job incident) (λ s. inl refl)
        (λ incident.
          timed-Steps deps state job Wanted (decide deps state job incident)
            (decide-Steps incident))

-- The Job is still blocked; or it has an approved recovery, which the policy authorizes with its advice and at
-- its time; or a late result or its checks have settled it.
abbrev pub Waited : {E : Type 0} → Deps E → Job → Job → Type 0
Waited deps job j =
    (j.state ≡ blocked)
    ⊎ (((j.state ≡ recovery_approved)
          × ((automatic : Authorized) × (approval : Approval) × (automatic_recovery_for
                  deps.platform job j.analysis (some j.updated_at)
                ≡ some automatic)
              × (j.approval ≡ some approval)
              × (approval.basis ≡ some policy_rule)
              × (approval.action ≡ automatic.action)))
        ⊎ (SettledLate deps job j ⊎ SettledCi deps job j))

granted-Waited :
    {E : Type 0} (deps : Deps E) (job : Job) (advice : Option AnalystAdvice)
    (automatic : Authorized) (at : String) (j : Job)
    → automatic_recovery_for deps.platform job advice (some at) ≡ some automatic
    → HasGrant advice automatic at j
    → Waited deps job j
granted-Waited deps job advice automatic at j authorized
      (ready, has_advice, at_time, (approval, has_approval, basis, action)) =
    inr (
      inl (
        ready,
        (automatic, approval, rw has_advice (rw at_time authorized), has_approval, basis, action),
      ))

module _ {E : Type 0} (deps : Deps E) (state : HarnessState) (job : Job) where
  -- A run of `diagnose_or_wait` on a blocked Job leaves the ledger as it was, or with the next revision of
  -- the same Job, which satisfies the invariant. It is still blocked; or it has the policy's approval of the
  -- action that the policy authorizes for the given Job with the new one's advice and at its time; or a late
  -- result of the Attempt was observed, and it is in a state that this result allows; or the pull request on
  -- whose checks it waits was observed, and is merged and the Job is done, or is open with recovered checks and
  -- the Job is ready for publication.
  pub diagnose_or_wait-Waits :
      job.state ≡ blocked
      → (s : System E)
      → StepTo deps.platform state job
          (Waited deps job)
          s.ledger
          (diagnose_or_wait deps state job s).1.ledger
  unfolding diagnose_or_wait
  diagnose_or_wait-Waits e s =
      let Wanted = Waited deps job in
      let ci = reconcile_blocked_ci deps state job in
      let incident = diagnose_incident deps state job in
      Steps→Step deps state job Wanted (diagnose_or_wait deps state job) s (
        or_else-Steps deps state job Wanted (reconcile_late deps state job) (or_else ci incident)
          (reconcile_late-Checks deps state job Wanted (λ j l. inr (inr (inl l))))
          (or_else-Steps deps state job Wanted ci incident
            (reconcile_blocked_ci-Checks deps state job Wanted (λ j b. inl b)
              (λ j c. inr (inr (inr c))))
            (diagnose_incident-Steps deps state job Wanted (λ j b. inl (b ∙ e))
              (λ advice automatic at authorized j granted.
                granted-Waited deps job advice automatic at j authorized granted))))
