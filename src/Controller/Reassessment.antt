-- ===== src/Controller/Reassessment.antt =====
-- src/recovery.ts: `reassessIncident`, which asks the Analyst again about a held incident.
use herdr_harness_lite.Controller.Action.{
  ◌>>=◌, ◌>>◌, Action, require_some, require, pure, now, next_id,
}
use herdr_harness_lite.Controller.Ports.{Deps}
use herdr_harness_lite.Controller.Gates.{ApprovalRequest, save_active, open_gate}
use herdr_harness_lite.Model.Incident.{Incident, AnalystAdvice, Reassessment, BlockClass}
use herdr_harness_lite.Model.Job.{Job, blocked, HarnessState, evolve_job}
use herdr_harness_lite.Base.{String, some, ◌+◌, none, ◌∷◌, ◌otherwise◌, ◌==◌, [], ◌++◌, string_eq}
use herdr_harness_lite.Policy.{make_incident}
use herdr_harness_lite.Base.Text.{join, ◌<>◌}
use herdr_harness_lite.Policy.Reassess.{reassessment_class_for}
use herdr_harness_lite.Policy.Offers.{offers}
use herdr_harness_lite.Policy.Operator.{reassess}
use herdr_harness_lite.Policy.Projection.{operator_actions_for}

module _ {E : Type 0} (deps : Deps E) where
  -- The checks of `reassessIncident`; the class is that of the incident that follows.
  unfoldable pub reassessment_gate :
      ApprovalRequest → Action E (HarnessState × Job × Incident × AnalystAdvice × BlockClass)
  unfolding open_gate
  reassessment_gate request = do
    (state, job, incident) ←
        open_gate deps "reassessment" "reassessment" "job is not awaiting reassessment" request
    analysis ← require_some job.analysis "analysis changed before reassessment"
    require (analysis.id == request.analysis_id) "analysis changed before reassessment"
    require (analysis.incident_id == incident.id) "analysis is not bound to the active incident"
    class ← require_some (reassessment_class_for job) "the held incident cannot be reassessed"
    require (offers reassess (operator_actions_for deps.platform job))
        "the held incident cannot be reassessed"
    pure (state, job, incident, analysis, class)

  successor_summary : ApprovalRequest → Incident → AnalystAdvice → String
  successor_summary request incident analysis = join "\n" (
      ("Reassessment requested for held incident " <> incident.id <> ".")
      ∷ ("Previous incident (untrusted):\n" <> incident.summary)
      ∷ ("Previous Analyst hold (untrusted): " <> analysis.summary)
      ∷ ("Operator statement (untrusted): " <> request.reason)
      ∷ [])

  -- The incident that takes the place of the held one.
  unfoldable pub successor :
      ApprovalRequest → Job → Incident → AnalystAdvice → BlockClass → String → String → Incident
  unfolding successor_summary
  successor request job incident analysis class at id =
      make_incident deps.platform
        (record {
          job_id = job.id;
          job_revision = job.revision + 1;
          lane = incident.lane;
          attempt_id = incident.attempt_id;
          block_class = class;
          summary = successor_summary request incident analysis;
          automatic_recovery = none;
          runtime_diagnostic = incident.runtime_diagnostic;
        })
        at id

  abbrev pub reassessed : Incident → Reassessment → Job → Job
  reassessed incident reassessment j = record j {
    state = blocked;
    incident = some incident;
    analysis = none;
    approval = none;
    reassessments = some ((j.reassessments otherwise []) ++ reassessment ∷ []);
    last_error = some incident.summary;
  }

  unfoldable pub reassess_incident : ApprovalRequest → Action E Reassessment
  unfolding reassessment_gate save_active successor
  reassess_incident request = do
    (state, job, incident, analysis, class) ← reassessment_gate request
    at ← now deps
    incident_id ← next_id deps "incident"
    let next = successor request job incident analysis class at incident_id
    created_at ← now deps
    id ← next_id deps "reassessment"
    let reassessment : Reassessment = record {
      id = id;
      job_revision = job.revision;
      incident_id = incident.id;
      analysis_id = analysis.id;
      replacement_incident_id = next.id;
      actor = request.actor;
      reason = request.reason;
      created_at = created_at;
    }
    save_active deps state job (evolve_job job created_at (reassessed next reassessment))
    pure reassessment
