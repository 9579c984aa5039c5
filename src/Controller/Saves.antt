-- ===== src/Controller/Saves.antt =====
-- What a save of the next revision, and a block, do to the ledger.
use herdr_harness_lite.Controller.Action.{
  Action, ◌>>=◌, pure, validate_state, require, save, ◌>>◌, now, next_id,
}
use herdr_harness_lite.Controller.Ports.{Deps, Outcome}
use herdr_harness_lite.Model.Job.{HarnessState, Job, job_state_eq, evolve_job, blocked}
use herdr_harness_lite.Base.{inl, ◌≡◌, ◌+◌, inr, false, some, String, refl, is_none, ◌otherwise◌}
use herdr_harness_lite.Ledger.{assert_job_invariant}
use herdr_harness_lite.Controller.Context.{
  BlockInput, save_job, block, blocked_job, result, blocked_action, TickResult,
}
use herdr_harness_lite.Controller.Store.{save-cases}
use herdr_harness_lite.Model.Encode.{class_text}
use herdr_harness_lite.Base.Text.{◌<>◌}
use herdr_harness_lite.Controller.Steps.{
  Checks, Steps, answered-Checks, bind-Runs, Steps-bind, goes_on, May,
}

module _ {E : Type 0} (deps : Deps E) (state : HarnessState) (job : Job)
    (Wanted : Job → Type 0) where
  -- The next revision of the Job that the handler was given.
  abbrev pub Follows : Job → Type 0
  Follows j =
      (j.id ≡ job.id)
      × (j.created_at ≡ job.created_at)
      × (j.revision ≡ job.revision + 1)
      × (Wanted j)

  save-Steps :
      (j : Job)
      → Follows j
      → Steps deps state job Wanted
          (save deps (record state { active_job = some j }) (some job.revision))
  unfolding validate_state
  save-Steps j f s =
      elim (save-cases deps (record state { active_job = some j }) (some job.revision) s) [
        | inl (r, was_valid, is_valid, matched, installed) ↦
            inr ((j, f.0, f.1, f.2, f.3, is_valid, installed), tt)
        | inr (thrown, kept) ↦ inl kept
      ]

  pub save_job-Steps :
      (j : Job) → Follows j → Steps deps state job Wanted (save_job deps state job j)
  unfolding save_job
  save_job-Steps j f =
      let refusal = assert_job_invariant deps.platform j in
      bind-Runs deps state job Wanted (λ r. Unit) (require (is_none refusal) (refusal otherwise ""))
        (λ _. save deps (record state { active_job = some j }) (some job.revision)) (λ s. refl)
        (λ _. save-Steps j f)

  pub evolve_job-Follows :
      (at : String) (patch : Job → Job)
      → May Wanted (patch job).state
      → Follows (evolve_job job at patch)
  unfolding evolve_job
  evolve_job-Follows at patch allowed = (refl, refl, refl, allowed _ refl)

  -- A save and an answer.
  pub saved-Steps :
      {A : Type 0} (j : Job) (a : A)
      → Follows j
      → Steps deps state job Wanted (save_job deps state job j >> pure a)
  saved-Steps j a f =
      Steps-bind deps state job Wanted (save_job deps state job j) (λ _. pure a)
        (save_job-Steps j f) (λ _ s. refl)

  pub saved-Checks :
      {A : Type 0} (j : Job) (a : A)
      → Follows j
      → Checks deps state job Wanted (save_job deps state job j >> pure (some a))
  saved-Checks j a f =
      answered-Checks deps state job Wanted (save_job deps state job j) (λ _. a)
        (save_job-Steps j f)

  pub evolved_to-Steps :
      {A : Type 0} (patch : Job → Job) (a : A)
      → ((at : String) → Wanted (evolve_job job at patch))
      → Steps deps state job Wanted
          (now deps >>= λ at. save_job deps state job (evolve_job job at patch) >> pure a)
  unfolding now evolve_job
  evolved_to-Steps patch a wanted =
      bind-Runs deps state job Wanted (λ r. Unit) (now deps)
        (λ at. save_job deps state job (evolve_job job at patch) >> pure a) (λ s. refl)
        (λ at. saved-Steps (evolve_job job at patch) a (refl, refl, refl, wanted at))

  -- A save of what the clock's time evolves the Job to, and an answer.
  pub evolved-Steps :
      {A : Type 0} (patch : Job → Job) (a : A)
      → May Wanted (patch job).state
      → Steps deps state job Wanted
          (now deps >>= λ at. save_job deps state job (evolve_job job at patch) >> pure a)
  unfolding now
  evolved-Steps patch a allowed =
      bind-Runs deps state job Wanted (λ r. Unit) (now deps)
        (λ at. save_job deps state job (evolve_job job at patch) >> pure a) (λ s. refl)
        (λ at. saved-Steps (evolve_job job at patch) a (evolve_job-Follows at patch allowed))

  pub evolved-Checks :
      {A : Type 0} (patch : Job → Job) (a : A)
      → May Wanted (patch job).state
      → Checks deps state job Wanted
          (now deps >>= λ at. save_job deps state job (evolve_job job at patch) >> pure (some a))
  unfolding now
  evolved-Checks patch a allowed =
      bind-Runs deps state job Wanted (λ r. goes_on r ≡ false) (now deps)
        (λ at. save_job deps state job (evolve_job job at patch) >> pure (some a)) (λ s. refl)
        (λ at. saved-Checks (evolve_job job at patch) a (evolve_job-Follows at patch allowed))

  blocked_job-Follows :
      (input : BlockInput) (at incident_at id : String)
      → May Wanted blocked
      → Follows (blocked_job deps job input at incident_at id)
  unfolding blocked_job evolve_job
  blocked_job-Follows input at incident_at id may_block = (refl, refl, refl, may_block _ refl)

  pub block-Steps :
      (input : BlockInput)
      → May Wanted blocked
      → Steps deps state job Wanted (block deps state job input)
  unfolding block now next_id
  block-Steps input may_block =
      let answer =
        result false blocked_action job (class_text input.block_class <> ": " <> input.summary) in
      let ends : Outcome TickResult → Type 0 = λ r. Unit in
      bind-Runs deps state job Wanted ends (now deps)
        (λ at. do
          incident_at ← now deps
          id ← next_id deps "incident"
          save_job deps state job (blocked_job deps job input at incident_at id)
          pure answer)
        (λ s. refl)
        (λ at.
          bind-Runs deps state job Wanted ends (now deps)
            (λ incident_at. do
              id ← next_id deps "incident"
              save_job deps state job (blocked_job deps job input at incident_at id)
              pure answer)
            (λ s. refl)
            (λ incident_at.
              bind-Runs deps state job Wanted ends (next_id deps "incident")
                (λ id. do
                  save_job deps state job (blocked_job deps job input at incident_at id)
                  pure answer)
                (λ s. refl)
                (λ id.
                  saved-Steps (blocked_job deps job input at incident_at id) answer
                    (blocked_job-Follows input at incident_at id may_block))))

  -- A block whose answer is the end of a check.
  pub blocked-Checks :
      (input : BlockInput)
      → May Wanted blocked
      → Checks deps state job Wanted (block deps state job input >>= λ r. pure (some r))
  blocked-Checks input may_block =
      answered-Checks deps state job Wanted (block deps state job input) (λ r. r)
        (block-Steps input may_block)

  -- What is done at the time that the clock gives.
  pub timed-Steps :
      {A : Type 0} (f : String → Action E A)
      → ((at : String) → Steps deps state job Wanted (f at))
      → Steps deps state job Wanted (now deps >>= f)
  unfolding now
  timed-Steps f k = bind-Runs deps state job Wanted (λ r. Unit) (now deps) f (λ s. refl) k
