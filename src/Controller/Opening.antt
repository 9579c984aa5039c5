-- ===== src/Controller/Opening.antt =====
-- src/recovery.ts: what every gate of the operator has checked when it goes on.
use herdr_harness_lite.Controller.Action.{System, load}
use herdr_harness_lite.Controller.Ports.{Deps, ok}
use herdr_harness_lite.Controller.Gates.{ApprovalRequest, open_gate, save_active}
use herdr_harness_lite.Model.Job.{HarnessState, Job, blocked}
use herdr_harness_lite.Base.{String, ◌≡◌, ◌⊎◌, some, arith}
use herdr_harness_lite.Model.Incident.{Incident}
use herdr_harness_lite.Controller.Store.{Refused, save-cases}

module _ {E : Type 0} (deps : Deps E) where
  -- The ledger holds a blocked Job with exactly the revision and the incident that the request names.
  abbrev pub IsOpened : ApprovalRequest → HarnessState → Job → Incident → Type 0
  IsOpened request state job incident =
      (state.active_job ≡ some job)
      × (job.revision ≡ request.expected_revision)
      × (job.state ≡ blocked)
      × (job.incident ≡ some incident)
      × (incident.id ≡ request.incident_id)

  pub open_gate-ok :
      (noun deed awaiting : String) (request : ApprovalRequest) (s : System E)
      (state : HarnessState) (job : Job) (incident : Incident)
      → (open_gate deps noun deed awaiting request s).0 ≡ ok (state, job, incident)
      → (state ≡ s.ledger) × IsOpened request state job incident
  unfolding open_gate load
  open_gate-ok noun deed awaiting request s state job incident h = ground arith

  pub open_gate-ledger :
      (noun deed awaiting : String) (request : ApprovalRequest) (s : System E)
      → (open_gate deps noun deed awaiting request s).1.ledger ≡ s.ledger
  unfolding open_gate load
  open_gate-ledger noun deed awaiting request s = ground arith

  pub save_active-cases :
      (state : HarnessState) (job next : Job) (s : System E)
      → (((save_active deps state job next s).0 ≡ ok tt)
          × ((save_active deps state job next s).1.ledger
              ≡ record state { active_job = some next }))
        ⊎ Refused s (save_active deps state job next s)
  unfolding save_active
  save_active-cases state job next s =
      ground
        (arith, save-cases deps (record state { active_job = some next }) (some job.revision) s)
