-- ===== src/Controller/Advice.antt =====
-- src/controller/helpers.ts: the bounds of the evidence that a diagnosis is given.
use herdr_harness_lite.Controller.Diagnosis.{
  dedupe_evidence, unseen_evidence, take_evidence, references,
}
use herdr_harness_lite.Base.{
  String, List, includes, ℕ, ◌∷◌, length, In, arith, ◌≡◌, suc, ◌≤◌, [], Bool-cases, inl, ◌||◌,
  false, zero, refl, string_eq, inr,
}
use herdr_harness_lite.Model.Incident.{recovery_action_eq}
use herdr_harness_lite.Model.Evidence.{EvidenceItem}
use herdr_harness_lite.Base.Text.{is_blank}

-- No element stands twice.
abbrev pub Distinct : List String → Type 0
Distinct [] = Unit
Distinct (x ∷ xs) = (In x xs → ⊥) × Distinct xs

unseen-In :
    (seen : List String) (xs : List EvidenceItem) (x : EvidenceItem)
    → In x (unseen_evidence seen xs)
    → (includes seen x.reference ≡ false) × (is_blank x.reference ≡ false) × In x xs
unfolding unseen_evidence includes
unseen-In seen [] x m = absurd m
unseen-In seen (y ∷ ys) x m =
    ground (arith, unseen-In seen ys x, unseen-In (y.reference ∷ seen) ys x)

references-In :
    (r : String) (xs : List EvidenceItem)
    → In r (references xs)
    → (x : EvidenceItem) × In x xs × (r ≡ x.reference)
references-In r [] m = absurd m
references-In r (x ∷ xs) m = elim m [
  | inl e ↦ (x, inl refl, e)
  | inr n ↦ let (y, k, e) = references-In r xs n in (y, inr k, e)
]

unseen-Distinct :
    (seen : List String) (xs : List EvidenceItem) → Distinct (references (unseen_evidence seen xs))
unfolding unseen_evidence includes
unseen-Distinct seen [] = tt
unseen-Distinct seen (y ∷ ys) =
    elim (Bool-cases (is_blank y.reference || includes seen y.reference)) [
      | inl e ↦ rw e (unseen-Distinct seen ys)
      | inr e ↦ rw e (
        (λ m.
            let (x, k, same) =
              references-In y.reference (unseen_evidence (y.reference ∷ seen) ys) m in
            let fresh = (unseen-In (y.reference ∷ seen) ys x k).0 in ground arith),
        unseen-Distinct (y.reference ∷ seen) ys,
      )
    ]

take-In : (n : ℕ) (xs : List EvidenceItem) (x : EvidenceItem) → In x (take_evidence n xs) → In x xs
unfolding take_evidence
take-In zero xs x m = absurd m
take-In (suc n) [] x m = absurd m
take-In (suc n) (y ∷ ys) x m = elim m [ inl e ↦ inl e | inr k ↦ inr (take-In n ys x k) ]

references-In_take :
    (n : ℕ) (xs : List EvidenceItem) (r : String)
    → In r (references (take_evidence n xs))
    → In r (references xs)
unfolding take_evidence
references-In_take zero xs r m = absurd m
references-In_take (suc n) [] r m = absurd m
references-In_take (suc n) (y ∷ ys) r m = elim m [
  | inl e ↦ inl e
  | inr k ↦ inr (references-In_take n ys r k)
]

take-Distinct :
    (n : ℕ) (xs : List EvidenceItem)
    → Distinct (references xs)
    → Distinct (references (take_evidence n xs))
unfolding take_evidence
take-Distinct zero xs d = tt
take-Distinct (suc n) [] d = tt
take-Distinct (suc n) (y ∷ ys) d =
    ((λ m. d.0 (references-In_take n ys y.reference m)), take-Distinct n ys d.1)

length-take : (n : ℕ) (xs : List EvidenceItem) → length (take_evidence n xs) ≤ n
unfolding take_evidence
length-take zero xs = omega arith
length-take (suc n) [] = omega arith
length-take (suc n) (y ∷ ys) = ground (arith, length-take n ys)

-- Evidence that fits a pack: at most 32 items, with distinct references.
abbrev pub Fits : List EvidenceItem → Type 0
Fits items = (length items ≤ 32) × Distinct (references items)

-- Whatever the items, `dedupe_evidence` keeps at most 32 of them, no two with the same reference, and none
-- that was not given or that has a blank reference.
pub dedupe_evidence-Fits :
    (items : List EvidenceItem)
    → Fits (dedupe_evidence items)
      × ((x : EvidenceItem)
          → In x (dedupe_evidence items)
          → In x items × (is_blank x.reference ≡ false))
unfolding dedupe_evidence
dedupe_evidence-Fits items = (
  (
    length-take 32 (unseen_evidence [] items),
    take-Distinct 32 (unseen_evidence [] items) (unseen-Distinct [] items),
  ),
  λ x m.
      let (fresh, named, given) =
        unseen-In [] items x (take-In 32 (unseen_evidence [] items) x m) in
      (given, named),
)
