-- ===== src/Base/Sorting.antt =====
-- Laws of `sort_by`: members and order.
use mathlib.Core.Path.{◌≡◌}
use mathlib.Core.Logic.{◌⊎◌}
use mathlib.Core.Bool.{Bool, true, false}
use mathlib.Core.List.{List, [], ◌∷◌}
use native.Mathlib.Omega.{arith}
use herdr_harness_lite.Base.Lists.{In, All, insert_by, sort_by}

module _ {A : Type 0} (before : A → A → Bool) where
  In-insert_by : (a x : A) (ys : List A) → In a (insert_by before x ys) → (a ≡ x) ⊎ In a ys
  unfolding insert_by
  In-insert_by a x [] h = h
  In-insert_by a x (y ∷ ys) h = ground (arith, In-insert_by a x ys)

  insert_by-In : (a x : A) (ys : List A) → (a ≡ x) ⊎ In a ys → In a (insert_by before x ys)
  unfolding insert_by
  insert_by-In a x [] h = h
  insert_by-In a x (y ∷ ys) h = ground (arith, insert_by-In a x ys)

  pub In-sort_by : (a : A) (xs : List A) → In a (sort_by before xs) → In a xs
  unfolding sort_by
  In-sort_by a [] h = h
  In-sort_by a (x ∷ xs) h = ground (arith, In-insert_by a x (sort_by before xs), In-sort_by a xs)

  pub sort_by-In : (a : A) (xs : List A) → In a xs → In a (sort_by before xs)
  unfolding sort_by
  sort_by-In a [] h = h
  sort_by-In a (x ∷ xs) h = ground (arith, insert_by-In a x (sort_by before xs), sort_by-In a xs)

-- Each element may stand before all that follow it.
module _ {A : Type 0} (before : A → A → Bool) where
  abbrev pub IsSorted : List A → Type 0
  IsSorted [] = Unit
  IsSorted (x ∷ xs) = All (λ y. before x y ≡ true) xs × IsSorted xs

module _ {A : Type 0} (before : A → A → Bool)
    (total : (a b : A) → before a b ≡ false → before b a ≡ true)
    (trans : (a b c : A) → before a b ≡ true → before b c ≡ true → before a c ≡ true) where
  All-before :
      (a b : A) (xs : List A)
      → before a b ≡ true
      → All (λ y. before b y ≡ true) xs
      → All (λ y. before a y ≡ true) xs
  All-before a b [] h k = tt
  All-before a b (x ∷ xs) h k = (trans a b x h k.0, All-before a b xs h k.1)

  All-insert_by :
      (a x : A) (ys : List A)
      → before a x ≡ true
      → All (λ y. before a y ≡ true) ys
      → All (λ y. before a y ≡ true) (insert_by before x ys)
  unfolding insert_by
  All-insert_by a x [] h k = (h, tt)
  All-insert_by a x (y ∷ ys) h k = ground (arith, All-insert_by a x ys h k.1)

  insert_by-IsSorted :
      (x : A) (ys : List A) → IsSorted before ys → IsSorted before (insert_by before x ys)
  unfolding insert_by
  insert_by-IsSorted x [] h = (tt, tt)
  insert_by-IsSorted x (y ∷ ys) h =
      ground
        (arith, All-before x y ys, total x y, All-insert_by y x ys, insert_by-IsSorted x ys h.1)

  pub sort_by-IsSorted : (xs : List A) → IsSorted before (sort_by before xs)
  unfolding sort_by
  sort_by-IsSorted [] = tt
  sort_by-IsSorted (x ∷ xs) = insert_by-IsSorted x (sort_by before xs) (sort_by-IsSorted xs)
