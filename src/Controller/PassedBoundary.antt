-- ===== src/Controller/PassedBoundary.antt =====
-- src/controller/automatic-recovery.ts: what the check of the Provider's boundary has seen when it lets a
-- recovery go on.
use herdr_harness_lite.Controller.Action.{◌>>=◌, Action, System, or_check, perform, pure}
use herdr_harness_lite.Controller.Ports.{Deps, Outcome, AttemptSideEffectInspection, ok, throw}
use herdr_harness_lite.Base.{
  Bool, Option, ◌≡◌, none, if◌then◌else◌, false, some, true, String, ◌⊎◌, arith, not, refl, ◌&&◌,
  inl, ap, inr, sym, ◌∙◌,
}
use herdr_harness_lite.Model.Job.{Job, HarnessState, WorktreeHandle}
use herdr_harness_lite.Controller.Boundary.{
  verify_provider_boundary, on_inspected, check_boundary, refuse, exists, boundary_of,
  is_provider_approval, boundary_check, crossed_boundary,
}
use herdr_harness_lite.Model.Attempt.{Attempt}
use herdr_harness_lite.Controller.Context.{BlockInput, TickResult, block}
use herdr_harness_lite.Controller.Sequence.{bind-cases}

module _ {E A : Type 0} where
  -- Two checks that let a handler go on both do.
  pub or_check-passed :
      (m k : Action E (Option A)) (s : System E)
      → (or_check m k s).0 ≡ ok none
      → ((m s).0 ≡ ok none) × ((k (m s).1).0 ≡ ok none)
  or_check-passed m k s h =
      elim (bind-cases m (λ r. elim r [ some a ↦ pure (some a) | none ↦ k ]) s) [
        | inl (none, r, e) ↦ (r, ap (λ p. p.0) (sym e) ∙ h)
        | inl (some a, r, e) ↦ absurd (answered a (ap (λ p. p.0) (sym e) ∙ h))
        | inr (message, e) ↦ absurd (thrown message none (ap (λ p. p.0) (sym e) ∙ h))
      ]
    where
      answered : (a : A) → ok (some a) ≡ ok none → ⊥
      answered a e = cc

      thrown : (message : String) (o : Option A) → throw message ≡ ok o → ⊥
      thrown message o e = cc

  if-passed :
      (test : Bool) (m k : Action E (Option A)) (s : System E)
      → ((k s).0 ≡ ok none → ⊥)
      → ((if test then m else k) s).0 ≡ ok none
      → (test ≡ true) × ((m s).0 ≡ ok none)
  if-passed true m k s stops h = (refl, h)
  if-passed false m k s stops h = absurd (stops h)

-- The Provider's boundary stands: the incident, its candidate and the Attempt agree, the Attempt has left no
-- result, and the inspection of the worktree has found neither a change nor a commit.
abbrev pub Stands : {E : Type 0} → Deps E → Job → Type 0
Stands {E} deps job =
    (a : Attempt) × (w : WorktreeHandle) × (o : AttemptSideEffectInspection) × (e : E) × (f : E)
    × (boundary_of job ≡ some (a, w))
    × (deps.ports.file_exists a.result_path e ≡ false)
    × ((deps.ports.inspect_side_effects (boundary_check deps job a w) f).0 ≡ ok o)
    × (o.worktree_changed ≡ false)
    × (o.commit_created ≡ false)

module _ {E : Type 0} (deps : Deps E) (state : HarnessState) (job : Job) where
  refuse-stops :
      (input : BlockInput) (s : System E) → (refuse deps state job input s).0 ≡ ok none → ⊥
  refuse-stops input s h = elim (bind-cases (block deps state job input) (λ r. pure (some r)) s) [
    | inl (a, r, e) ↦ answered a (ap (λ p. p.0) (sym e) ∙ h)
    | inr (message, e) ↦ thrown message none (ap (λ p. p.0) (sym e) ∙ h)
  ]
    where
      answered : (a : TickResult) → ok (some a) ≡ ok none → ⊥
      answered a e = cc

      thrown : (message : String) (o : Option TickResult) → throw message ≡ ok o → ⊥
      thrown message o e = cc

  on_inspected-passed :
      (a : Attempt) (r : Outcome AttemptSideEffectInspection) (s : System E)
      → (on_inspected deps state job a r s).0 ≡ ok none
      → (o : AttemptSideEffectInspection) × (r ≡ ok o)
        × (o.worktree_changed ≡ false)
        × (o.commit_created ≡ false)
  unfolding on_inspected
  on_inspected-passed a (throw message) s h = ground arith
  on_inspected-passed a (ok o) s h =
      let (clean, answered) =
        if-passed (not o.worktree_changed && not o.commit_created) (pure none) _ s
          (refuse-stops _ s) h in
      (o, refl, ground arith, ground arith)

  check_boundary-passed :
      (a : Attempt) (w : WorktreeHandle) (is_there : Bool) (s : System E)
      → (check_boundary deps state job a w is_there s).0 ≡ ok none
      → (is_there ≡ false)
        × ((o : AttemptSideEffectInspection) × ((deps.ports.inspect_side_effects
                (boundary_check deps job a w)
                s.env).0
              ≡ ok o)
            × (o.worktree_changed ≡ false)
            × (o.commit_created ≡ false))
  unfolding check_boundary
  check_boundary-passed a w true s h = absurd (refuse-stops _ s h)
  check_boundary-passed a w false s h =
      let call = deps.ports.inspect_side_effects (boundary_check deps job a w) in
      (refl, on_inspected-passed a (call s.env).0 (perform call s).1 h)

  pub verify_provider_boundary-passed :
      (s : System E)
      → (verify_provider_boundary deps state job s).0 ≡ ok none
      → (is_provider_approval job ≡ false) ⊎ Stands deps job
  unfolding verify_provider_boundary exists
  verify_provider_boundary-passed s h = by_provider (is_provider_approval job) refl h
    where
      go_on : Attempt × WorktreeHandle → Action E (Option TickResult)
      go_on (a, w) = exists deps a.result_path >>= check_boundary deps state job a w

      bounded : Option (Attempt × WorktreeHandle) → Action E (Option TickResult)
      bounded o = elim o [
        | none ↦ crossed_boundary deps state job
        | some (a, w) ↦ exists deps a.result_path >>= check_boundary deps state job a w
      ]

      by_boundary :
          (o : Option (Attempt × WorktreeHandle))
          → boundary_of job ≡ o
          → (bounded o s).0 ≡ ok none
          → Stands deps job
      by_boundary none e k = absurd (refuse-stops _ s k)
      by_boundary (some (a, w)) e k =
          let (missing, (o, answered, unchanged, uncommitted)) =
            check_boundary-passed a w (deps.ports.file_exists a.result_path s.env) s k in
          (a, w, o, s.env, s.env, e, missing, answered, unchanged, uncommitted)

      by_provider :
          (is_provider : Bool)
          → is_provider_approval job ≡ is_provider
          → ((if not is_provider then pure none else bounded (boundary_of job)) s).0 ≡ ok none
          → (is_provider_approval job ≡ false) ⊎ Stands deps job
      by_provider false e k = inl e
      by_provider true e k = inr (by_boundary (boundary_of job) refl k)
