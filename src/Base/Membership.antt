-- ===== src/Base/Membership.antt =====
-- Laws of `includes`, `find`, `some` and `every`, and of membership in what they return.
use mathlib.Core.Path.{◌≡◌, refl, sym, subst}
use mathlib.Core.Logic.{◌⊎◌, inl, inr}
use mathlib.Core.Bool.{Bool, true}
use mathlib.Core.Option.{some}
use mathlib.Core.List.{List, [], ◌∷◌, ◌++◌, reverse, reverse_aux}
use native.Mathlib.Omega.{arith}
use herdr_harness_lite.Base.Tests.{Eq}
use herdr_harness_lite.Base.Lists.{In, All, includes, find}

pub includes→In : {A : Type 0} ⦃e : Eq A⦄ (xs : List A) (a : A) → includes xs a ≡ true → In a xs
unfolding includes
includes→In [] a h = cc
includes→In (x ∷ xs) a h = ground (arith, includes→In xs a)

pub In→includes : {A : Type 0} ⦃e : Eq A⦄ (xs : List A) (a : A) → In a xs → includes xs a ≡ true
unfolding includes
In→includes [] a h = absurd h
In→includes (x ∷ xs) a h = ground (arith, In→includes xs a)

pub In-append : {A : Type 0} (a : A) (xs ys : List A) → In a (xs ++ ys) → In a xs ⊎ In a ys
In-append a [] ys h = inr h
In-append a (x ∷ xs) ys h = ground (arith, In-append a xs ys)

pub In-append_left : {A : Type 0} (a : A) (xs ys : List A) → In a xs → In a (xs ++ ys)
In-append_left a [] ys h = absurd h
In-append_left a (x ∷ xs) ys h = ground (arith, In-append_left a xs ys)

pub In-append_right : {A : Type 0} (a : A) (xs ys : List A) → In a ys → In a (xs ++ ys)
In-append_right a [] ys h = h
In-append_right a (x ∷ xs) ys h = inr (In-append_right a xs ys h)

In-reverse_aux :
    {A : Type 0} (a : A) (xs ys : List A) → In a (reverse_aux xs ys) → In a xs ⊎ In a ys
In-reverse_aux a [] ys h = inr h
In-reverse_aux a (x ∷ xs) ys h = ground (arith, In-reverse_aux a xs (x ∷ ys))

pub In-reverse : {A : Type 0} (a : A) (xs : List A) → In a (reverse xs) → In a xs
In-reverse a xs h = ground (arith, In-reverse_aux a xs [])

pub find-In :
    {A : Type 0} (p : A → Bool) (xs : List A) (a : A) → find p xs ≡ some a → In a xs × (p a ≡ true)
unfolding find
find-In p [] a h = cc
find-In p (x ∷ xs) a h = ground (arith, find-In p xs a)

pub All-In : {A : Type 0} (P : A → Type 0) (xs : List A) (a : A) → All P xs → In a xs → P a
All-In P [] a h m = absurd m
All-In P (x ∷ xs) a h m = elim m [ inl e ↦ subst P (sym e) h.0 | inr r ↦ All-In P xs a h.1 r ]

pub In-All : {A : Type 0} (P : A → Type 0) (xs : List A) → ((a : A) → In a xs → P a) → All P xs
In-All P [] h = tt
In-All P (x ∷ xs) h = (h x (inl refl), In-All P xs (λ a m. h a (inr m)))
