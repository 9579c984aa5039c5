-- ===== src/Base/Tests.antt =====
-- Boolean tests: orders of native numbers, and equality by an instance of `Eq`, which decides.
use Prim.Native.Nat.{ℕ, compare, Ordering}
use Prim.Native.String.{String}
use mathlib.Core.Path.{◌≡◌, refl}
use mathlib.Core.Logic.{◌↔◌, ◌⊎◌, inl, inr}
use mathlib.Core.Bool.{Bool, true, false, not}
use mathlib.Core.Option.{Option, none, some}
use native.Mathlib.Decide.{ℕ_discrete}
use text.Mathlib.Text.{◌==◌ as str_eq}
use text.Mathlib.TextEquality.{eq_iff}

abbrev pub ltb : ℕ → ℕ → Bool
ltb a b = elim (compare a b) [ Ordering.lt ↦ true | _ ↦ false ]

abbrev pub leb : ℕ → ℕ → Bool
leb a b = elim (compare a b) [ Ordering.gt ↦ false | _ ↦ true ]

infix 1 if◌then◌else◌
abbrev pub if◌then◌else◌ {ℓ} : {A : Type ℓ} → Bool → A → A → A
if true then x else y = x
if false then x else y = y

pub Bool-cases : (b : Bool) → (b ≡ true) ⊎ (b ≡ false)
Bool-cases true = inl refl
Bool-cases false = inr refl

pub Option-cases {ℓ} : {A : Type ℓ} (o : Option A) → (o ≡ none) ⊎ ((a : A) × (o ≡ some a))
Option-cases none = inl refl
Option-cases (some a) = inr (a, refl)

-- Equality as a decision, so that a proof which splits on a test has the equation at hand.
pub record Eq {ℓ} (A : Type ℓ) : Type ℓ where
  pub dec : Discrete A

abbrev pub is_yes {ℓ} : {P : Type ℓ} → Dec P → Bool
is_yes (yes _) = true
is_yes (no _) = false

infix 50 ◌==◌ ◌/=◌
abbrev pub ◌==◌ {ℓ} : {T : Type ℓ} ⦃known : Eq T⦄ → T → T → Bool
◌==◌ ⦃known⦄ a b = is_yes (known.dec a b)

abbrev pub ◌/=◌ {ℓ} : {T : Type ℓ} ⦃known : Eq T⦄ → T → T → Bool
a /= b = not (a == b)

dec_of_test : {P : Type 0} (b : Bool) → (b ≡ true) ↔ P → Dec P
dec_of_test true f = yes (f.0 refl)
dec_of_test false f = no (λ p. cc (f.1 p))

unfoldable pub String-discrete : Discrete String
unfolding dec_of_test
String-discrete s t = dec_of_test (str_eq s t) (eq_iff s t)

unfoldable pub Option-discrete : {A : Type 0} → Discrete A → Discrete (Option A)
Option-discrete d none none = yes refl
Option-discrete d none (some b) = no (λ e. cc)
Option-discrete d (some a) none = no (λ e. cc)
Option-discrete d (some a) (some b) = elim (d a b) [ yes p ↦ yes (cc) | no n ↦ no (λ e. n (cc)) ]

instance abbrev pub nat_eq : Eq ℕ
nat_eq = record { dec = ℕ_discrete }

instance abbrev pub string_eq : Eq String
string_eq = record { dec = String-discrete }

instance abbrev pub option_eq : {A : Type 0} ⦃e : Eq A⦄ → Eq (Option A)
option_eq ⦃e⦄ = record { dec = Option-discrete e.dec }

abbrev pub is_none {ℓ} : {A : Type ℓ} → Option A → Bool
is_none none = true
is_none (some _) = false

abbrev pub is_some {ℓ} : {A : Type ℓ} → Option A → Bool
is_some none = false
is_some (some _) = true

-- `x ?? fallback`
infix 55 ◌otherwise◌
abbrev pub ◌otherwise◌ {ℓ} : {A : Type ℓ} → Option A → A → A
none otherwise a = a
some b otherwise a = b
