-- ===== src/Controller/Store.antt =====
-- src/adapters/json-store.ts: how a call of `save` ends.
use herdr_harness_lite.Controller.Action.{
  save_locked, System, load, write_ledger, save, validate_state, active_revision,
}
use herdr_harness_lite.Controller.Ports.{Deps, Outcome, ok, throw}
use herdr_harness_lite.Model.Job.{HarnessState}
use herdr_harness_lite.Base.{◌≡◌, Option, ℕ, String, ◌⊎◌, none, arith}

-- A call that threw, and left the ledger as it was.
abbrev pub Refused : {E A : Type 0} → System E → Outcome A × System E → Type 0
Refused s (r, s') = ((message : String) × (r ≡ throw message)) × (s'.ledger ≡ s.ledger)

module _ {E : Type 0} (deps : Deps E) where
  -- A `save` that returned: both states were valid, the compared revision was the ledger's, and the
  -- ledger is the new state.
  abbrev pub Committed : HarnessState → Option ℕ → System E → Outcome (Unit {0}) × System E → Type 0
  Committed next expected s (r, s') =
      (r ≡ ok tt)
      × (validate_state deps s.ledger ≡ none)
      × (validate_state deps next ≡ none)
      × (active_revision deps s.ledger ≡ expected)
      × (s'.ledger ≡ next)

  pub load-cases :
      (s : System E)
      → (((load deps s).0 ≡ ok s.ledger)
          × (validate_state deps s.ledger ≡ none)
          × ((load deps s).1.ledger ≡ s.ledger))
        ⊎ Refused s (load deps s)
  unfolding load
  load-cases s = ground arith

  write_ledger-cases :
      (next : HarnessState) (s : System E)
      → (((write_ledger deps next s).0 ≡ ok tt) × ((write_ledger deps next s).1.ledger ≡ next))
        ⊎ Refused s (write_ledger deps next s)
  unfolding write_ledger
  write_ledger-cases next s = ground arith

  save_locked-cases :
      (next : HarnessState) (expected : Option ℕ) (s : System E)
      → Committed next expected s (save_locked deps next expected s)
        ⊎ Refused s (save_locked deps next expected s)
  unfolding save_locked write_ledger load
  save_locked-cases next expected s = ground arith

  -- Every call of `save` ends in one of two ways. Either it returns, the old and the new state were
  -- both valid, the revision of the active Job was the expected one, and the ledger is the new
  -- state; or it throws and the ledger is as it was.
  pub save-cases :
      (next : HarnessState) (expected : Option ℕ) (s : System E)
      → Committed next expected s (save deps next expected s)
        ⊎ Refused s (save deps next expected s)
  unfolding save
  save-cases next expected s =
      let locked : System E = record { ledger = s.ledger; env = (deps.ports.lock s.env).1 } in
      ground (arith, save_locked-cases next expected locked)
