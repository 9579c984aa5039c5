-- ===== src/Controller/Sequence.antt =====
-- Sequencing: a sequence goes on with what its first part returned, or ends as its first part threw.
use herdr_harness_lite.Controller.Action.{Action, ◌>>=◌, System}
use herdr_harness_lite.Controller.Ports.{Outcome, ok, throw}
use herdr_harness_lite.Base.{◌≡◌, ◌⊎◌, String, inl, inr, arith, refl}

Outcome-cases :
    {A : Type 0} (r : Outcome A)
    → ((a : A) × (r ≡ ok a)) ⊎ ((message : String) × (r ≡ throw message))
Outcome-cases (ok a) = inl (a, refl)
Outcome-cases (throw message) = inr (message, refl)

module _ {E : Type 0} {A B : Type 0} where
  pub bind-cases :
      (m : Action E A) (f : A → Action E B) (s : System E)
      → ((a : A) × ((m s).0 ≡ ok a) × ((m >>= f) s ≡ f a (m s).1))
        ⊎ ((message : String) × ((m >>= f) s ≡ (throw message, (m s).1)))
  bind-cases m f s = elim (Outcome-cases (m s).0) [
    | inl (a, e) ↦ inl (a, e, ground arith)
    | inr (message, e) ↦ inr (message, ground arith)
  ]
