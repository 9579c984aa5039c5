-- ===== src/Controller/Once.antt =====
-- src/recovery.ts: a request to approve, sent again.
use herdr_harness_lite.Controller.Action.{System}
use herdr_harness_lite.Controller.Ports.{Deps}
use herdr_harness_lite.Base.{String, ℕ, ◌≡◌, some, arith, inr, sym, ◌∙◌, inl, ap, ◌⊎◌}
use herdr_harness_lite.Model.Job.{evolve_job, Job}
use herdr_harness_lite.Controller.Gates.{ApprovalRequest, approve_recovery, approve}
use herdr_harness_lite.Controller.Store.{Refused}
use herdr_harness_lite.Controller.Approval.{approve_recovery-cases}

module _ {E : Type 0} (deps : Deps E) where
  -- The next revision of a Job is not the revision that the request names.
  moved_on :
      (n : ℕ) (job next : Job) (at : String) (patch : Job → Job)
      → job.revision ≡ n
      → next.revision ≡ n
      → some next ≡ some (evolve_job job at patch)
      → ⊥
  unfolding evolve_job
  moved_on n job next at patch e f h = ground arith

  -- Of two calls of `approve_recovery` with the same request, the second on the system that the first left,
  -- at least one is refused: it throws and leaves the ledger as it was.
  pub approved_once :
      (request : ApprovalRequest) (s : System E)
      → Refused s (approve_recovery deps request s)
        ⊎ Refused
            (approve_recovery deps request s).1
            (approve_recovery deps request (approve_recovery deps request s).1)
  approved_once request s =
      let after = (approve_recovery deps request s).1 in
      elim (approve_recovery-cases deps request s) [
        | inr refused ↦ inl refused
        | inl
              (
                job,
                incident,
                analysis,
                passed,
                retry,
                allowed,
                (granted, r, action, revision, saved),
              ) ↦
            elim (approve_recovery-cases deps request after) [
              | inr refused ↦ inr refused
              | inl (job', incident', analysis', passed', retry', allowed', again) ↦ absurd (
                  moved_on request.expected_revision job job' granted.created_at
                    (approve deps granted) passed.0.1 passed'.0.1
                    (sym passed'.0.0 ∙ ap (λ l. l.active_job) saved))
            ]
      ]
