-- ===== src/Controller/Action.antt =====
-- Actions on the ledger and the world outside it, and the durable store of src/adapters/json-store.ts.
use herdr_harness_lite.Controller.Ports.{Outcome, ok, throw, Call, Deps}
use herdr_harness_lite.Base.{
  Option, String, Bool, if◌then◌else◌, none, some, ℕ, option_eq, nat_eq, ◌==◌, is_none, ◌otherwise◌,
}
use herdr_harness_lite.Model.Job.{HarnessState}
use herdr_harness_lite.Ledger.{assert_job_invariant}

pub record System (E : Type 0) : Type 0 where
  pub ledger : HarnessState
  pub env : E

abbrev pub Action : Type 0 → Type 0 → Type 0
Action E A = System E → Outcome A × System E

module _ {E : Type 0} where
  abbrev pub pure : {A : Type 0} → A → Action E A
  pure a s = (ok a, s)

  abbrev pub fail : {A : Type 0} → String → Action E A
  fail message s = (throw message, s)

  abbrev pub perform : {A : Type 0} → Call E A → Action E A
  perform call s = let (r, e) = call s.env in (r, record { ledger = s.ledger; env = e })

  -- `try { … } catch (error) { … }` around a call: the message is handed on.
  abbrev pub attempt : {A : Type 0} → Action E A → Action E (Outcome A)
  attempt m s = let (r, s') = m s in (ok r, s')

  infixl 5 ◌>>=◌ ◌>>◌
  abbrev pub ◌>>=◌ : {A B : Type 0} → Action E A → (A → Action E B) → Action E B
  ◌>>=◌ m f s = let (r, s') = m s in elim r [ ok a ↦ f a s' | throw message ↦ (throw message, s') ]

  abbrev pub ◌>>◌ : {A B : Type 0} → Action E A → Action E B → Action E B
  m >> k = m >>= λ _. k

  -- `const answer = await check(…); if (answer) return answer;`, in a handler and in another check.
  abbrev pub or_else : {A : Type 0} → Action E (Option A) → Action E A → Action E A
  or_else check k = check >>= λ r. elim r [ some a ↦ pure a | none ↦ k ]

  abbrev pub or_check :
      {A : Type 0} → Action E (Option A) → Action E (Option A) → Action E (Option A)
  or_check check k = check >>= λ r. elim r [ some a ↦ pure (some a) | none ↦ k ]

  -- `if (!test) throw new Error(message)`
  abbrev pub require : Bool → String → Action E (Unit {0})
  require test message s = (if test then ok tt else throw message, s)

  abbrev pub require_some : {A : Type 0} → Option A → String → Action E A
  require_some none message s = (throw message, s)
  require_some (some a) message s = (ok a, s)

module _ {E : Type 0} (deps : Deps E) where
  -- What a call in the model's own code has answered or thrown.
  abbrev pub of_outcome : {A : Type 0} → Outcome A → Action E A
  of_outcome r s = (r, s)

  -- `clock.now()`
  unfoldable pub now : Action E String
  now s = let (t, e) = deps.ports.now s.env in (ok t, record { ledger = s.ledger; env = e })

  -- `ids.next(prefix)`
  unfoldable pub next_id : String → Action E String
  next_id prefix s =
      let (i, e) = deps.ports.next_id prefix s.env in (ok i, record { ledger = s.ledger; env = e })

  abbrev pub active_revision : HarnessState → Option ℕ
  active_revision state = elim state.active_job [ none ↦ none | some job ↦ some job.revision ]

  -- `validateState`: the message that is thrown, if one is.
  unfoldable pub validate_state : HarnessState → Option String
  validate_state state = elim state.active_job [
    | none ↦ none
    | some job ↦ assert_job_invariant deps.platform job
  ]

  -- `store.load()`
  unfoldable pub load : Action E HarnessState
  load s =
      let (r, e) = deps.ports.read s.env in
      let s' : System E = record { ledger = s.ledger; env = e } in
      elim r [
        | throw message ↦ (throw message, s')
        | ok _ ↦ elim (validate_state s.ledger) [
          | some message ↦ (throw message, s')
          | none ↦ (ok s.ledger, s')
        ]
      ]

  -- `writeFileSync` and `renameSync`: the ledger is the new state once the rename is done.
  unfoldable pub write_ledger : HarnessState → Action E (Unit {0})
  write_ledger next s =
      let (r, e) = deps.ports.write next s.env in
      elim r [
        | throw message ↦ (throw message, record { ledger = s.ledger; env = e })
        | ok _ ↦ (ok tt, record { ledger = next; env = e })
      ]

  -- The body of `save` under the lock: compare, validate, and write. The audit line that is
  -- appended after the rename, whose failure is dropped, is left out.
  unfoldable pub save_locked : HarnessState → Option ℕ → Action E (Unit {0})
  unfolding load write_ledger
  save_locked next expected = do
    current ← load
    require (active_revision current == expected) "state CAS failed"
    require (is_none (validate_state next)) (validate_state next otherwise "")
    write_ledger next

  -- `store.save(next, expectedActiveRevision)`, with the `finally` that gives the lock back.
  unfoldable pub save : HarnessState → Option ℕ → Action E (Unit {0})
  unfolding save_locked
  save next expected s =
      let (held, e) = deps.ports.lock s.env in
      elim held [
        | throw message ↦ (throw message, record { ledger = s.ledger; env = e })
        | ok _ ↦
            let (r, s') = save_locked next expected (record { ledger = s.ledger; env = e }) in
            (r, record { ledger = s'.ledger; env = deps.ports.unlock s'.env })
      ]
