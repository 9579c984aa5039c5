-- ===== src/Controller/Steps.antt =====
-- A step of the ledger is nothing or one revision; the rules by which the calls of a handler are composed.
use herdr_harness_lite.Controller.Action.{
  Action, ◌>>=◌, System, pure, or_else, or_check, attempt, perform,
}
use herdr_harness_lite.Controller.Ports.{Deps, Outcome, ok, Call, throw}
use herdr_harness_lite.Controller.Sequence.{bind-cases}
use herdr_harness_lite.Model.Platform.{Platform}
use herdr_harness_lite.Model.Job.{HarnessState, Job, JobState, job_state_eq}
use herdr_harness_lite.Base.{
  Option, inl, ◌≡◌, Bool, List, ap, ◌∙◌, ◌⊎◌, ◌+◌, true, inr, false, some, includes, sym, none,
  if◌then◌else◌, String, refl, arith,
}
use mathlib.Core.Path.{subst}
use herdr_harness_lite.Ledger.{assert_job_invariant}

-- The next revision of the Job, which is as wanted, which satisfies the ledger's invariant.
abbrev pub Moved : Platform → HarnessState → Job → (Job → Type 0) → HarnessState → Type 0
Moved platform state job Wanted after =
    (j : Job) × (j.id ≡ job.id)
    × (j.created_at ≡ job.created_at)
    × (j.revision ≡ job.revision + 1)
    × (Wanted j)
    × (assert_job_invariant platform j ≡ none)
    × (after ≡ record state { active_job = some j })

-- The listed states
abbrev pub Among : List JobState → Job → Type 0
Among targets j = includes targets j.state ≡ true

-- Every Job in a state is wanted.
abbrev pub May : (Job → Type 0) → JobState → Type 0
May Wanted x = (j : Job) → j.state ≡ x → Wanted j

-- What a handler that was given `state` and its Job does to the ledger.
abbrev pub StepTo :
    Platform → HarnessState → Job → (Job → Type 0) → HarnessState → HarnessState → Type 0
StepTo platform state job Wanted before after =
    (after ≡ before) ⊎ Moved platform state job Wanted after

-- A step to a Job in one of the listed states.
abbrev pub Step :
    Platform → HarnessState → Job → List JobState → HarnessState → HarnessState → Type 0
Step platform state job targets before after =
    StepTo platform state job (Among targets) before after

pub includes→May :
    (targets : List JobState) (x : JobState) → includes targets x ≡ true → May (Among targets) x
includes→May targets x h j e = subst (λ y. includes targets y ≡ true) (sym e) h

-- An action whose answer does not matter.
abbrev pub Any : {A : Type 0} → Outcome A → Type 0
Any r = Unit {0}

-- A call that answers that the handler may go on.
abbrev pub goes_on : {A : Type 0} → Outcome (Option A) → Bool
goes_on (ok none) = true
goes_on _ = false

module _ {E : Type 0} where
  -- An action that leaves the ledger alone.
  abbrev pub Quiet : {A : Type 0} → Action E A → Type 0
  Quiet m = (s : System E) → (m s).1.ledger ≡ s.ledger

  pub bind-Quiet :
      {A B : Type 0} (m : Action E A) (f : A → Action E B)
      → Quiet m
      → ((a : A) → Quiet (f a))
      → Quiet (m >>= f)
  bind-Quiet m f q k s = elim (bind-cases m f s) [
    | inl (a, r, e) ↦ ap (λ p. p.1.ledger) e ∙ k a (m s).1 ∙ q s
    | inr (message, e) ↦ ap (λ p. p.1.ledger) e ∙ q s
  ]

  pub if-Quiet :
      {A : Type 0} (test : Bool) (m k : Action E A)
      → Quiet m
      → Quiet k
      → Quiet (if test then m else k)
  if-Quiet true m k qm qk = qm
  if-Quiet false m k qm qk = qk

  pub option-Quiet :
      {A B : Type 0} (o : Option A) (m : Action E B) (k : A → Action E B)
      → Quiet m
      → ((a : A) → Quiet (k a))
      → Quiet (elim o [ none ↦ m | some a ↦ k a ])
  option-Quiet none m k qm qk = qm
  option-Quiet (some a) m k qm qk = qk a

module _ {E : Type 0} (deps : Deps E) (state : HarnessState) (job : Job)
    (Wanted : Job → Type 0) where
  -- Every run of the action leaves the ledger alone, or saves one revision and answers as `ends` wants.
  abbrev pub Runs : {A : Type 0} → (Outcome A → Type 0) → Action E A → Type 0
  Runs ends m =
      (s : System E)
      → ((m s).1.ledger ≡ s.ledger)
        ⊎ (Moved deps.platform state job Wanted (m s).1.ledger × ends (m s).0)

  abbrev pub Steps : {A : Type 0} → Action E A → Type 0
  Steps m = Runs (λ r. Unit {0}) m

  -- A check of a handler, which saves nothing if the handler may go on.
  abbrev pub Checks : {A : Type 0} → Action E (Option A) → Type 0
  Checks m = Runs (λ r. goes_on r ≡ false) m

  pub Quiet→Runs : {A : Type 0} (ends : Outcome A → Type 0) (m : Action E A) → Quiet m → Runs ends m
  Quiet→Runs ends m q s = inl (q s)

  pub bind-Runs :
      {A B : Type 0} (ends : Outcome B → Type 0) (m : Action E A) (f : A → Action E B)
      → Quiet m
      → ((a : A) → Runs ends (f a))
      → Runs ends (m >>= f)
  bind-Runs ends m f q k s = elim (bind-cases m f s) [
    | inl (a, r, e) ↦
        subst
          (λ p.
            (p.1.ledger ≡ s.ledger) ⊎ (Moved deps.platform state job Wanted p.1.ledger × ends p.0))
          (sym e)
          (subst
            (λ l.
              ((f a (m s).1).1.ledger ≡ l)
              ⊎ (Moved deps.platform state job Wanted (f a (m s).1).1.ledger
                  × ends (f a (m s).1).0))
            (q s) (k a (m s).1))
    | inr (message, e) ↦ inl (ap (λ p. p.1.ledger) e ∙ q s)
  ]

  -- A step, and what follows it without a save.
  pub Steps-bind :
      {A B : Type 0} (m : Action E A) (f : A → Action E B)
      → Steps m
      → ((a : A) → Quiet (f a))
      → Steps (m >>= f)
  Steps-bind m f st k s = elim (bind-cases m f s) [
    | inl (a, r, e) ↦
        let kept = ap (λ p. p.1.ledger) e ∙ k a (m s).1 in
        elim (st s) [
          | inl quiet ↦ inl (kept ∙ quiet)
          | inr (moved, end) ↦
              inr (subst (Moved deps.platform state job Wanted) (sym kept) moved, tt)
        ]
    | inr (message, e) ↦
        let kept = ap (λ p. p.1.ledger) e in
        elim (st s) [
          | inl quiet ↦ inl (kept ∙ quiet)
          | inr (moved, end) ↦
              inr (subst (Moved deps.platform state job Wanted) (sym kept) moved, tt)
        ]
  ]

  -- A step whose answer is handed on as the end of a check.
  pub answered-Checks :
      {A B : Type 0} (m : Action E A) (g : A → B) → Steps m → Checks (m >>= λ a. pure (some (g a)))
  answered-Checks m g st s = elim (bind-cases m (λ a. pure (some (g a))) s) [
    | inl (a, r, e) ↦
        let kept = ap (λ p. p.1.ledger) e in
        elim (st s) [
          | inl quiet ↦ inl (kept ∙ quiet)
          | inr (moved, end) ↦ inr (
            subst (Moved deps.platform state job Wanted) (sym kept) moved,
            ap (λ p. goes_on p.0) e,
          )
        ]
    | inr (message, e) ↦
        let kept = ap (λ p. p.1.ledger) e in
        elim (st s) [
          | inl quiet ↦ inl (kept ∙ quiet)
          | inr (moved, end) ↦ inr (
            subst (Moved deps.platform state job Wanted) (sym kept) moved,
            ap (λ p. goes_on p.0) e,
          )
        ]
  ]

  -- A check, and what a handler does with its answer.
  pub continued-Runs :
      {A B : Type 0} (ends : Outcome B → Type 0) (m : Action E (Option A))
      (f : Option A → Action E B)
      → Checks m
      → ((a : A) (s : System E) → ((f (some a) s).1.ledger ≡ s.ledger) × ends (f (some a) s).0)
      → ((message : String) → ends (throw message))
      → ((s : System E) → (m s).0 ≡ ok none → Runs ends (f none))
      → Runs ends (m >>= f)
  continued-Runs ends m f c q t k s = elim (bind-cases m f s) [
    | inr (message, e) ↦
        let kept = ap (λ p. p.1.ledger) e in
        elim (c s) [
          | inl quiet ↦ inl (kept ∙ quiet)
          | inr (moved, end) ↦ inr (
            subst (Moved deps.platform state job Wanted) (sym kept) moved,
            subst (λ p. ends p.0) (sym e) (t message),
          )
        ]
    | inl (some a, r, e) ↦
        let kept = ap (λ p. p.1.ledger) e ∙ (q a (m s).1).0 in
        elim (c s) [
          | inl quiet ↦ inl (kept ∙ quiet)
          | inr (moved, end) ↦ inr (
            subst (Moved deps.platform state job Wanted) (sym kept) moved,
            subst (λ p. ends p.0) (sym e) (q a (m s).1).1,
          )
        ]
    | inl (none, r, e) ↦ elim (c s) [
      | inl quiet ↦
          subst
            (λ p.
              (p.1.ledger ≡ s.ledger)
              ⊎ (Moved deps.platform state job Wanted p.1.ledger × ends p.0))
            (sym e)
            (subst
              (λ l.
                ((f none (m s).1).1.ledger ≡ l)
                ⊎ (Moved deps.platform state job Wanted (f none (m s).1).1.ledger
                    × ends (f none (m s).1).0))
              quiet (k s r (m s).1))
      | inr (moved, end) ↦ ground arith
    ]
  ]

  pub or_else-Steps :
      {A : Type 0} (m : Action E (Option A)) (k : Action E A)
      → Checks m
      → Steps k
      → Steps (or_else m k)
  or_else-Steps m k c st =
      continued-Runs (λ r. Unit) m (λ r. elim r [ some a ↦ pure a | none ↦ k ]) c
        (λ a s. (refl, tt)) (λ message. tt) (λ s e. st)

  -- What follows a check may use that the check has let the handler go on in some system.
  pub passed-Steps :
      {A : Type 0} (m : Action E (Option A)) (k : Action E A)
      → Checks m
      → ((s : System E) → (m s).0 ≡ ok none → Steps k)
      → Steps (or_else m k)
  passed-Steps m k c st =
      continued-Runs (λ r. Unit) m (λ r. elim r [ some a ↦ pure a | none ↦ k ]) c
        (λ a s. (refl, tt)) (λ message. tt) st

  pub or_check-Checks :
      {A : Type 0} (m k : Action E (Option A)) → Checks m → Checks k → Checks (or_check m k)
  or_check-Checks m k c ck =
      continued-Runs (λ r. goes_on r ≡ false) m (λ r. elim r [ some a ↦ pure (some a) | none ↦ k ])
        c (λ a s. (refl, refl)) (λ message. refl) (λ s e. ck)

  -- A call of a port whose failure is caught, and a handler of either answer.
  pub caught-Runs :
      {A B : Type 0} (ends : Outcome B → Type 0) (call : Call E A) (f : Outcome A → Action E B)
      → ((r : Outcome A) → Runs ends (f r))
      → Runs ends (attempt (perform call) >>= f)
  caught-Runs ends call f k = bind-Runs ends (attempt (perform call)) f (λ s. refl) k

  pub if-Runs :
      {A : Type 0} (ends : Outcome A → Type 0) (test : Bool) (m k : Action E A)
      → Runs ends m
      → Runs ends k
      → Runs ends (if test then m else k)
  if-Runs ends true m k rm rk = rm
  if-Runs ends false m k rm rk = rk

  -- A test whose branches may use its value.
  pub branch-Runs :
      {A : Type 0} (ends : Outcome A → Type 0) (test : Bool) (m k : Action E A)
      → (test ≡ true → Runs ends m)
      → (test ≡ false → Runs ends k)
      → Runs ends (if test then m else k)
  branch-Runs ends true m k rm rk = rm refl
  branch-Runs ends false m k rm rk = rk refl

  -- A caught call, whose handler may use that the port has answered so in some environment.
  pub answered-Runs :
      {A B : Type 0} (ends : Outcome B → Type 0) (call : Call E A) (f : Outcome A → Action E B)
      → ((r : Outcome A) (e : E) → (call e).0 ≡ r → Runs ends (f r))
      → Runs ends (attempt (perform call) >>= f)
  answered-Runs ends call f k s = k (call s.env).0 s.env refl (perform call s).1

  -- A call whose failure ends the handler.
  pub performed-Runs :
      {A B : Type 0} (ends : Outcome B → Type 0) (call : Call E A) (f : A → Action E B)
      → ((a : A) (e : E) → (call e).0 ≡ ok a → Runs ends (f a))
      → Runs ends (perform call >>= f)
  performed-Runs ends call f k s = elim (bind-cases (perform call) f s) [
    | inl (a, r, e) ↦
        subst
          (λ p.
            (p.1.ledger ≡ s.ledger) ⊎ (Moved deps.platform state job Wanted p.1.ledger × ends p.0))
          (sym e) (k a s.env r (perform call s).1)
    | inr (message, e) ↦ inl (ap (λ p. p.1.ledger) e)
  ]

  -- An action whose failure is caught, whose handler may use that it has answered so in some system.
  pub attempted-Runs :
      {A B : Type 0} (ends : Outcome B → Type 0) (m : Action E A) (f : Outcome A → Action E B)
      → Quiet m
      → ((r : Outcome A) (s : System E) → (m s).0 ≡ r → Runs ends (f r))
      → Runs ends (attempt m >>= f)
  attempted-Runs ends m f q k s =
      subst
        (λ l.
          ((f (m s).0 (m s).1).1.ledger ≡ l)
          ⊎ (Moved deps.platform state job Wanted (f (m s).0 (m s).1).1.ledger
              × ends (f (m s).0 (m s).1).0))
        (q s) (k (m s).0 s refl (m s).1)

  -- A case distinction whose branch may use the value.
  pub chosen-Runs :
      {A B : Type 0} (ends : Outcome B → Type 0) (o : Option A) (m : Action E B)
      (k : A → Action E B)
      → Runs ends m
      → ((a : A) → o ≡ some a → Runs ends (k a))
      → Runs ends (elim o [ none ↦ m | some a ↦ k a ])
  chosen-Runs ends none m k rm rk = rm
  chosen-Runs ends (some a) m k rm rk = rk a refl

  pub option-Runs :
      {A B : Type 0} (ends : Outcome B → Type 0) (o : Option A) (m : Action E B)
      (k : A → Action E B)
      → Runs ends m
      → ((a : A) → Runs ends (k a))
      → Runs ends (elim o [ none ↦ m | some a ↦ k a ])
  option-Runs ends none m k rm rk = rm
  option-Runs ends (some a) m k rm rk = rk a
