-- ===== src/Controller/Slot.antt =====
-- src/controller/task-lifecycle.ts: how the ledger's slot for a Job is taken and freed.
use herdr_harness_lite.Controller.Action.{
  ◌>>=◌, ◌>>◌, Action, System, pure, or_else, active_revision, save, validate_state, perform,
  attempt,
}
use herdr_harness_lite.Model.Job.{HarnessState, Job, TerminalJob, JobState, job_state_eq}
use herdr_harness_lite.Controller.Steps.{Quiet, if-Quiet, bind-Quiet, option-Quiet}
use herdr_harness_lite.Base.{
  Option, ◌≡◌, ◌⊎◌, inl, sym, inr, ap, ◌∙◌, some, some_of, none, ℕ, In, String, refl, Bool, ◌==◌,
  List, Bool-cases, true, string_eq, ◌++◌, arith, ◌∷◌, if◌then◌else◌, is_none, [],
}
use herdr_harness_lite.Controller.Sequence.{bind-cases}
use mathlib.Core.Path.{subst}
use herdr_harness_lite.Controller.Ports.{Deps, Outcome, ok, throw, CloseReason}
use herdr_harness_lite.Controller.Archive.{
  terminal_jobs_with, terminal_job, requeue_cancelled, archive, close_analyst, free_slot,
  release_claim, give_back, warning, close_cancelled, ended_by,
}
use herdr_harness_lite.Model.Attempt.{Attempt}
use herdr_harness_lite.Base.Membership.{In-append_left}
use herdr_harness_lite.Controller.Store.{save-cases}
use herdr_harness_lite.Controller.Closing.{close_attempt}
use herdr_harness_lite.Controller.ClosingSteps.{close_attempt-Quiet}

module _ {E : Type 0} (Wanted : HarnessState → HarnessState → Type 0) where
  -- Every run leaves the ledger alone, or as wanted, from what it was.
  abbrev pub Reaches : {A : Type 0} → Action E A → Type 0
  Reaches m = (s : System E) → ((m s).1.ledger ≡ s.ledger) ⊎ Wanted s.ledger (m s).1.ledger

  pub bind-Reaches :
      {A B : Type 0} (m : Action E A) (f : A → Action E B)
      → Quiet m
      → ((a : A) → Reaches (f a))
      → Reaches (m >>= f)
  bind-Reaches m f q k s = elim (bind-cases m f s) [
    | inl (a, r, e) ↦
        subst (λ p. (p.1.ledger ≡ s.ledger) ⊎ Wanted s.ledger p.1.ledger) (sym e)
          (subst (λ l. ((f a (m s).1).1.ledger ≡ l) ⊎ Wanted l (f a (m s).1).1.ledger) (q s)
            (k a (m s).1))
    | inr (message, e) ↦ inl (ap (λ p. p.1.ledger) e ∙ q s)
  ]

  pub Reaches-answer : {A B : Type 0} (m : Action E A) (b : B) → Reaches m → Reaches (m >> pure b)
  Reaches-answer m b r s = elim (bind-cases m (λ _. pure b) s) [
    | inl (a, ran, e) ↦
        subst (λ p. (p.1.ledger ≡ s.ledger) ⊎ Wanted s.ledger p.1.ledger) (sym e) (r s)
    | inr (message, e) ↦
        subst (λ p. (p.1.ledger ≡ s.ledger) ⊎ Wanted s.ledger p.1.ledger) (sym e) (r s)
  ]

  answered-Reaches :
      {A : Type 0} (o : Option A) (k : Action E A)
      → Reaches k
      → Reaches (elim o [ some a ↦ pure a | none ↦ k ])
  answered-Reaches none k r = r
  answered-Reaches (some a) k r = λ s. inl refl

  pub or_else-Reaches :
      {A : Type 0} (m : Action E (Option A)) (k : Action E A)
      → Quiet m
      → Reaches k
      → Reaches (or_else m k)
  or_else-Reaches m k q r =
      bind-Reaches m (λ o. elim o [ some a ↦ pure a | none ↦ k ]) q (λ o. answered-Reaches o k r)

  pub save-Reaches :
      (deps : Deps E) (next : HarnessState) (expected : Option ℕ)
      → ((before after : HarnessState)
          → after ≡ next
          → active_revision deps before ≡ expected
          → validate_state deps next ≡ none
          → Wanted before after)
      → Reaches (save deps next expected)
  save-Reaches deps next expected k s = elim (save-cases deps next expected s) [
    | inl (r, was_valid, is_valid, matched, installed) ↦
        inr (k s.ledger (save deps next expected s).1.ledger installed matched is_valid)
    | inr (thrown, kept) ↦ inl kept
  ]

-- The slot is free: the Job is among the terminal ones, and none of those is lost. Before, the active Job
-- had the revision of the Job that is archived.
abbrev pub Freed : {E : Type 0} → Deps E → HarnessState → Job → HarnessState → HarnessState → Type 0
Freed deps state job before after =
    (active_revision deps before ≡ some job.revision)
    × (after.active_job ≡ none)
    × (some_of (λ t. t.id == job.id) after.terminal_jobs ≡ true)
    × ((t : TerminalJob) → In t state.terminal_jobs → In t after.terminal_jobs)

some_of-append :
    (p : TerminalJob → Bool) (xs : List TerminalJob) (t : TerminalJob)
    → p t ≡ true
    → some_of p (xs ++ (t ∷ [])) ≡ true
unfolding some_of
some_of-append p [] t h = ground arith
some_of-append p (x ∷ xs) t h = ground (arith, some_of-append p xs t h)

terminal_jobs-has :
    (state : HarnessState) (job : Job)
    → some_of (λ t. t.id == job.id) (terminal_jobs_with state job) ≡ true
unfolding terminal_jobs_with terminal_job
terminal_jobs-has state job =
    elim (Bool-cases (some_of (λ t. t.id == job.id) state.terminal_jobs)) [
      | inl e ↦ rw e e
      | inr e ↦ rw e (
          some_of-append (λ t. t.id == job.id) state.terminal_jobs (terminal_job job)
            (ground arith))
    ]

terminal_jobs-keeps :
    (state : HarnessState) (job : Job) (t : TerminalJob)
    → In t state.terminal_jobs
    → In t (terminal_jobs_with state job)
unfolding terminal_jobs_with
terminal_jobs-keeps state job t m =
    elim (Bool-cases (some_of (λ t. t.id == job.id) state.terminal_jobs)) [
      | inl e ↦ rw e m
      | inr e ↦ rw e (In-append_left t state.terminal_jobs (terminal_job job ∷ []) m)
    ]

module _ {E : Type 0} (deps : Deps E) (state : HarnessState) (job : Job) where
  ended_by-Quiet : (text : String) (r : Outcome (Unit {0})) → Quiet (ended_by deps job text r)
  ended_by-Quiet text (ok u) s = refl
  ended_by-Quiet text (throw message) s = refl

  warning-Quiet : (r : Outcome (Unit {0})) → Quiet (warning deps r)
  warning-Quiet (ok u) s = refl
  warning-Quiet (throw message) s = refl

  give_back-Quiet : Quiet (give_back deps job)
  unfolding give_back
  give_back-Quiet =
      let requeue = perform (
        deps.ports.requeue_issue deps.config.repo job.task.issue_number deps.config.claim_label
          deps.config.ready_label) in
      let close : Attempt → Action E (Unit {0}) =
        λ a. if is_none a.handle then pure tt else close_attempt deps a CloseReason.cancelled in
      bind-Quiet (close_cancelled deps job) (λ _. requeue)
        (option-Quiet job.active_attempt (pure tt) close (λ s. refl)
          (λ a.
            if-Quiet (is_none a.handle) (pure tt) (close_attempt deps a CloseReason.cancelled)
              (λ s. refl) (close_attempt-Quiet deps a CloseReason.cancelled)))
        (λ _ s. refl)

  requeue_cancelled-Quiet : Quiet (requeue_cancelled deps job)
  unfolding requeue_cancelled
  requeue_cancelled-Quiet =
      if-Quiet (job.state == JobState.cancelled) _ (pure none)
        (bind-Quiet (attempt (give_back deps job)) (ended_by deps job _) give_back-Quiet
          (ended_by-Quiet _))
        (λ s. refl)

  close_analyst-Quiet : Quiet (close_analyst deps job)
  unfolding close_analyst
  close_analyst-Quiet =
      bind-Quiet (attempt (perform (deps.ports.close_analyst job.id job.task.digest job.analyst)))
        (ended_by deps job _) (λ s. refl) (ended_by-Quiet _)

  release_claim-Quiet : Quiet (release_claim deps job)
  unfolding release_claim
  release_claim-Quiet =
      let release = perform (
        deps.ports.release_issue_claim deps.config.repo job.task.issue_number
          deps.config.claim_label) in
      if-Quiet (job.state == JobState.done) (attempt release >>= warning deps) (pure "")
        (bind-Quiet (attempt release) (warning deps) (λ s. refl) warning-Quiet) (λ s. refl)

  free_slot-Frees : (text : String) → Reaches (Freed deps state job) (free_slot deps state job text)
  unfolding free_slot
  free_slot-Frees text =
      let next : HarnessState = record {
        active_job = none;
        terminal_jobs = terminal_jobs_with state job;
      } in
      Reaches-answer (Freed deps state job) (save deps next (some job.revision)) _ (
        save-Reaches (Freed deps state job) deps next (some job.revision)
          (λ before after e matched is_valid. (
            matched,
            ap (λ l. l.active_job) e,
            rw e (terminal_jobs-has state job),
            λ t m. rw e (terminal_jobs-keeps state job t m),
          )))

  -- A run of `archive` leaves the ledger as it was, or frees the slot: the active Job had the revision of
  -- the archived one, there is none any more, the terminal Jobs have one with its identity, and every
  -- terminal Job of the given state is still there.
  pub archive-Frees :
      (s : System E)
      → ((archive deps state job s).1.ledger ≡ s.ledger)
        ⊎ Freed deps state job s.ledger (archive deps state job s).1.ledger
  unfolding archive
  archive-Frees =
      let free = release_claim deps job >>= free_slot deps state job in
      or_else-Reaches (Freed deps state job) (requeue_cancelled deps job)
        (or_else (close_analyst deps job) free) requeue_cancelled-Quiet
        (or_else-Reaches (Freed deps state job) (close_analyst deps job) free close_analyst-Quiet (
          bind-Reaches (Freed deps state job) (release_claim deps job) (free_slot deps state job)
            release_claim-Quiet free_slot-Frees))
