-- ===== src/Controller/Commits.antt =====
-- src/adapters/json-store.ts: a save that may go through does.
use herdr_harness_lite.Controller.Action.{
  save_locked, save, load, System, validate_state, write_ledger, active_revision,
}
use herdr_harness_lite.Controller.Ports.{Deps}
use herdr_harness_lite.Model.Job.{HarnessState}
use herdr_harness_lite.Controller.Turns.{Replies}
use herdr_harness_lite.Base.{◌≡◌, none, arith}
use herdr_harness_lite.Controller.Store.{Committed}

module _ {E : Type 0} (deps : Deps E) (next : HarnessState)
    (reads : Replies (λ _. Unit {0}) deps.ports.read)
    (writes : Replies (λ _. Unit {0}) (deps.ports.write next)) where
  save_locked-commits :
      (s : System E)
      → validate_state deps s.ledger ≡ none
      → validate_state deps next ≡ none
      → Committed deps next
          (active_revision deps s.ledger)
          s
          (save_locked deps next (active_revision deps s.ledger) s)
  unfolding save_locked load write_ledger
  save_locked-commits s old_valid new_valid =
      let (u, read_ok, _) = reads s.env in
      let (v, write_ok, _) = writes (deps.ports.read s.env).1 in ground arith

  -- When the lock, the reading and the writing do not fail, a save of a valid state over a valid one with
  -- the revision of its active Job returns, and the ledger is the new state.
  pub save-commits :
      Replies (λ _. Unit {0}) deps.ports.lock
      → (s : System E) → validate_state deps s.ledger ≡ none
      → validate_state deps next ≡ none
      → Committed deps next
          (active_revision deps s.ledger)
          s
          (save deps next (active_revision deps s.ledger) s)
  unfolding save
  save-commits locks s old_valid new_valid =
      let (u, lock_ok, _) = locks s.env in
      let locked : System E = record { ledger = s.ledger; env = (deps.ports.lock s.env).1 } in
      ground (arith, save_locked-commits locked)
