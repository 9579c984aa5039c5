-- ===== src/Controller/Approval.antt =====
-- src/recovery.ts: how the calls of the gates that approve end.
use herdr_harness_lite.Policy.Operator.{ActionKind, is_decision_resolution_eligible}
use herdr_harness_lite.Controller.Action.{◌>>=◌, Action, System, load, now, next_id}
use herdr_harness_lite.Controller.Ports.{Deps, Outcome, ok}
use herdr_harness_lite.Controller.Gates.{
  decision_gate, grant, ApprovalRequest, approval_gate, approve_recovery, resolve_decision,
  cancellation_gate, make_approval, approve,
}
use herdr_harness_lite.Model.Incident.{
  RecoveryAction, ApprovalBasis, Incident, AnalystAdvice, Approval, is_retry_action,
  retry_fresh_worker, analyst_advice, human_decision,
}
use herdr_harness_lite.Model.Job.{HarnessState, Job, evolve_job}
use herdr_harness_lite.Base.{◌≡◌, arith, ◌⊎◌, true, some, inr, ap, inl, refl, ◌∙◌, sym}
use herdr_harness_lite.Controller.Opening.{IsOpened, save_active-cases}
use herdr_harness_lite.Controller.Store.{Refused}
use herdr_harness_lite.Policy.Offers.{offers, grants, Allows, decision_offered, retry_offered}
use herdr_harness_lite.Policy.Projection.{operator_actions_for}
use herdr_harness_lite.Controller.Sequence.{bind-cases}
use mathlib.Core.Path.{subst}

module _ {E : Type 0} (deps : Deps E) where
  -- A gate has passed: the ledger holds the blocked Job, incident and analysis that the request names.
  abbrev pub Passed : ApprovalRequest → System E → Job → Incident → AnalystAdvice → Type 0
  Passed request s job incident analysis =
      IsOpened deps request s.ledger job incident
      × (job.analysis ≡ some analysis)
      × (analysis.id ≡ request.analysis_id)

  approval_gate-ok :
      (request : ApprovalRequest) (s : System E) (state : HarnessState) (job : Job)
      (incident : Incident) (analysis : AnalystAdvice)
      → (approval_gate deps request s).0 ≡ ok (state, job, incident, analysis)
      → (state ≡ s.ledger)
        × Passed request s job incident analysis
        × (analysis.incident_id ≡ incident.id)
        × (is_retry_action analysis.action ≡ true)
        × (grants analysis.action (operator_actions_for deps.platform job) ≡ true)
  unfolding approval_gate load
  approval_gate-ok request s state job incident analysis h = ground arith

  approval_gate-ledger :
      (request : ApprovalRequest) (s : System E)
      → (approval_gate deps request s).1.ledger ≡ s.ledger
  unfolding approval_gate load
  approval_gate-ledger request s = ground arith

  decision_gate-ok :
      (request : ApprovalRequest) (s : System E) (state : HarnessState) (job : Job)
      (incident : Incident) (analysis : AnalystAdvice)
      → (decision_gate deps request s).0 ≡ ok (state, job, incident, analysis)
      → (state ≡ s.ledger)
        × Passed request s job incident analysis
        × (offers ActionKind.resolve_decision (operator_actions_for deps.platform job) ≡ true)
  unfolding decision_gate load
  decision_gate-ok request s state job incident analysis h = ground arith

  decision_gate-ledger :
      (request : ApprovalRequest) (s : System E)
      → (decision_gate deps request s).1.ledger ≡ s.ledger
  unfolding decision_gate load
  decision_gate-ledger request s = ground arith

  cancellation_gate-ok :
      (request : ApprovalRequest) (s : System E) (state : HarnessState) (job : Job)
      (incident : Incident) (analysis : AnalystAdvice)
      → (cancellation_gate deps request s).0 ≡ ok (state, job, incident, analysis)
      → (state ≡ s.ledger)
        × Passed request s job incident analysis
        × (offers ActionKind.cancel (operator_actions_for deps.platform job) ≡ true)
  unfolding cancellation_gate load
  cancellation_gate-ok request s state job incident analysis h = ground arith

  cancellation_gate-ledger :
      (request : ApprovalRequest) (s : System E)
      → (cancellation_gate deps request s).1.ledger ≡ s.ledger
  unfolding cancellation_gate load
  cancellation_gate-ledger request s = ground arith

  -- What `grant` has saved when it returns an approval of the action.
  abbrev pub Granted : RecoveryAction → HarnessState → Job → Outcome Approval × System E → Type 0
  Granted action state job (r, s') =
      (approval : Approval) × (r ≡ ok approval)
      × (approval.action ≡ action)
      × (approval.job_revision ≡ job.revision)
      × (s'.ledger ≡ record state {
        active_job = some (evolve_job job approval.created_at (approve deps approval));
      })

  grant-cases :
      (request : ApprovalRequest) (action : RecoveryAction) (basis : ApprovalBasis)
      (state : HarnessState) (job : Job) (incident : Incident) (analysis : AnalystAdvice)
      (s : System E)
      → Granted action state job
          (grant deps request action basis (state, job, incident, analysis) s)
        ⊎ Refused s (grant deps request action basis (state, job, incident, analysis) s)
  unfolding grant now next_id
  grant-cases request action basis state job incident analysis s =
      let (at, e) = deps.ports.now s.env in
      let (id, e') = deps.ports.next_id "approval" e in
      let approval = make_approval deps request action basis job incident analysis at id in
      let next = evolve_job job at (approve deps approval) in
      let s' : System E = record { ledger = s.ledger; env = e' } in
      elim (save_active-cases deps state job next s') [
        | inl (r, saved) ↦ inl (approval, ground arith, refl, refl, ground arith)
        | inr refused ↦ inr (ground arith)
      ]

  -- A gate that leaves the ledger alone, followed by `grant`.
  abbrev then_grant :
      Action E (HarnessState × Job × Incident × AnalystAdvice)
      → ApprovalRequest
      → (AnalystAdvice → RecoveryAction)
      → ApprovalBasis
      → Action E Approval
  then_grant gate request action basis =
      gate >>= λ g. grant deps request (action g.3) basis (g.0, g.1, g.2, g.3)

  then_grant-cases :
      (gate : Action E (HarnessState × Job × Incident × AnalystAdvice)) (request : ApprovalRequest)
      (action : AnalystAdvice → RecoveryAction) (basis : ApprovalBasis) (s : System E)
      → (gate s).1.ledger ≡ s.ledger
      → ((state : HarnessState) × (job : Job) × (incident : Incident) × (analysis : AnalystAdvice)
          × ((gate s).0 ≡ ok (state, job, incident, analysis))
          × Granted (action analysis) state job (then_grant gate request action basis s))
        ⊎ Refused s (then_grant gate request action basis s)
  then_grant-cases gate request action basis s kept =
      elim (bind-cases gate (λ g. grant deps request (action g.3) basis (g.0, g.1, g.2, g.3)) s) [
        | inr (message, e) ↦ inr ((message, ap (λ p. p.0) e), ap (λ p. p.1.ledger) e ∙ kept)
        | inl ((state, job, incident, analysis), passed, e) ↦
            elim (grant-cases request (action analysis) basis state job incident analysis
              (gate s).1) [
                | inl granted ↦ inl (
                  state,
                  job,
                  incident,
                  analysis,
                  passed,
                  subst (Granted (action analysis) state job) (sym e) granted,
                )
                | inr ((message, r), l) ↦
                    inr ((message, ap (λ p. p.0) e ∙ r), ap (λ p. p.1.ledger) e ∙ l ∙ kept)
              ]
      ]

  -- An approval of what the analysis advises: a retry that the policy allows.
  abbrev pub AdviceApproved : ApprovalRequest → System E → Outcome Approval × System E → Type 0
  AdviceApproved request s end =
      (job : Job) × (incident : Incident) × (analysis : AnalystAdvice) × Passed request s job
        incident analysis
      × (is_retry_action analysis.action ≡ true)
      × Allows incident analysis.action
      × Granted analysis.action s.ledger job end

  -- An approval of a fresh Worker, for a review that ran out of rounds.
  abbrev pub DecisionResolved : ApprovalRequest → System E → Outcome Approval × System E → Type 0
  DecisionResolved request s end =
      (job : Job) × (incident : Incident) × (analysis : AnalystAdvice) × Passed request s job
        incident analysis
      × (is_decision_resolution_eligible job ≡ true)
      × Granted retry_fresh_worker s.ledger job end

  -- Every call of `approve_recovery` ends in one of two ways. Either the ledger held the blocked Job, the
  -- incident and the analysis that the request names, the analysis advises a retry that the incident and its
  -- class allow, and exactly that retry is approved and saved as the Job's next revision; or the call throws
  -- and the ledger is as it was.
  pub approve_recovery-cases :
      (request : ApprovalRequest) (s : System E)
      → AdviceApproved request s (approve_recovery deps request s)
        ⊎ Refused s (approve_recovery deps request s)
  unfolding approve_recovery
  approve_recovery-cases request s =
      elim (then_grant-cases (approval_gate deps request) request (λ a. a.action) analyst_advice s
        (approval_gate-ledger request s)) [
          | inr refused ↦ inr refused
          | inl (state, job, incident, analysis, passed, granted) ↦
              let (same, opened, bound, is_retry, granting) =
                approval_gate-ok request s state job incident analysis passed in
              inl (
                job,
                incident,
                analysis,
                opened,
                is_retry,
                (retry_offered deps.platform job incident analysis analysis.action opened.0.3
                    opened.1 granting).2,
                subst (λ l. Granted analysis.action l job (approve_recovery deps request s)) same
                    granted,
              )
        ]

  -- Every call of `resolve_decision` ends in one of two ways. Either the ledger held the blocked Job, the
  -- incident and the analysis that the request names, the Job is eligible for a decision, and a fresh Worker
  -- is approved and saved as the Job's next revision; or the call throws and the ledger is as it was.
  pub resolve_decision-cases :
      (request : ApprovalRequest) (s : System E)
      → DecisionResolved request s (resolve_decision deps request s)
        ⊎ Refused s (resolve_decision deps request s)
  unfolding resolve_decision
  resolve_decision-cases request s =
      elim (then_grant-cases (decision_gate deps request) request (λ a. retry_fresh_worker)
        human_decision s (decision_gate-ledger request s)) [
          | inr refused ↦ inr refused
          | inl (state, job, incident, analysis, passed, granted) ↦
              let (same, opened, offered) =
                decision_gate-ok request s state job incident analysis passed in
              inl (
                job,
                incident,
                analysis,
                opened,
                decision_offered deps.platform job incident analysis opened.0.3 opened.1 offered,
                subst (λ l. Granted retry_fresh_worker l job (resolve_decision deps request s)) same
                    granted,
              )
        ]
