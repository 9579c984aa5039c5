-- ===== src/Controller/Turns.antt =====
-- src/controller/recovery-flow.ts: the turns of `runDiagnosis` end.
use herdr_harness_lite.Controller.Action.{◌>>=◌, Action, perform, System, now, next_id}
use herdr_harness_lite.Controller.Ports.{Deps, Call, ok}
use herdr_harness_lite.Model.Evidence.{
  AnalystTurn, need_evidence, advised, build_evidence_pack, EvidencePack, EvidenceRequest,
  AnalystAnswer, EvidenceItem,
}
use herdr_harness_lite.Model.Job.{Job, AnalystSession}
use herdr_harness_lite.Base.{
  ◌≡◌, ◌≤◌, length, List, refl, String, ◌++◌, not, is_empty, ◌&&◌, leb, true, arith, ◌∷◌, ℕ, [],
  suc, ◌+◌, zero,
}
use herdr_harness_lite.Model.Incident.{Incident, AnalystAdvice}
use herdr_harness_lite.Controller.Diagnosis.{
  on_turn, record_answer, record_exhausted, pack_of, dedupe_evidence, still_missing, diagnose,
  run_diagnosis,
}

-- The action returns, whatever the world and the ledger are.
abbrev pub Returns : {E A : Type 0} → Action E A → Type 0
Returns {E} {A} m = (s : System E) → (a : A) × ((m s).0 ≡ ok a)

-- A call of a port that answers, with an answer as wanted.
abbrev pub Replies : {E A : Type 0} → (A → Type 0) → Call E A → Type 0
Replies {E} {A} P call = (e : E) → (a : A) × ((call e).0 ≡ ok a) × P a

-- A turn that advises, or asks for one to four items.
abbrev pub Legal : AnalystTurn → Type 0
Legal (need_evidence requests) = (1 ≤ length requests) × (length requests ≤ 4)
Legal (advised answer) = Unit {0}

reply-Returns :
    {E A B : Type 0} (P : A → Type 0) (call : Call E A) (f : A → Action E B)
    → Replies P call
    → ((a : A) → P a → Returns (f a))
    → Returns (perform call >>= f)
reply-Returns P call f r k s =
    let (a, e, p) = r s.env in let (b, g) = k a p (perform call s).1 in (b, ground arith)

allowed :
    (requests : List EvidenceRequest)
    → Legal (need_evidence requests)
    → not (is_empty requests) && leb (length requests) 4 ≡ true
allowed [] legal = ground arith
allowed (r ∷ rs) legal = ground arith

module _ {E : Type 0} (deps : Deps E) (job : Job) (incident : Incident) where
  record_answer-Returns :
      (pack : EvidencePack) (answer : AnalystAnswer)
      → Returns (record_answer deps job incident pack answer)
  unfolding record_answer now next_id
  record_answer-Returns pack answer s = (_, refl)

  record_exhausted-Returns :
      (pack : EvidencePack) → Returns (record_exhausted deps job incident pack)
  unfolding record_exhausted now next_id
  record_exhausted-Returns pack s = (_, refl)

  on_turn-Returns :
      ((requests : List EvidenceRequest)
        → Replies (λ items. Unit {0}) (deps.ports.collect_evidence job requests))
      → (items : List EvidenceItem) (missing : List String)
        (next : List EvidenceItem → List String → Action E AnalystAdvice) (turn : AnalystTurn)
      → Legal turn
      → ((more : List EvidenceItem) (rest : List String) → Returns (next more rest))
      → Returns (on_turn deps job incident items missing next turn)
  unfolding on_turn build_evidence_pack
  on_turn-Returns collects items missing next (advised answer) legal k s =
      record_answer-Returns (pack_of deps job incident items missing) answer s
  on_turn-Returns collects items missing next (need_evidence requests) legal k s =
      let go_on : List EvidenceItem → Action E AnalystAdvice = λ collected.
        next (dedupe_evidence (items ++ collected)) (still_missing missing collected) in
      let legal_count : not (is_empty requests) && leb (length requests) 4 ≡ true =
        allowed requests legal in
      let (a, e) =
        reply-Returns (λ items. Unit {0}) (deps.ports.collect_evidence job requests) go_on
          (collects requests) (λ collected _. k _ _) s in
      (a, rw legal_count e)

  diagnose-Returns :
      (session : AnalystSession)
      → ((pack : EvidencePack) (turn : ℕ)
          → Replies Legal (deps.ports.analyst_turn session job pack turn))
      → ((requests : List EvidenceRequest)
          → Replies (λ items. Unit {0}) (deps.ports.collect_evidence job requests))
      → (left turn : ℕ) (items : List EvidenceItem) (missing : List String)
      → Returns (diagnose deps job incident session left turn items missing)
  unfolding diagnose build_evidence_pack
  diagnose-Returns session replies collects zero turn items missing =
      record_exhausted-Returns (pack_of deps job incident items missing)
  diagnose-Returns session replies collects (suc left) turn items missing =
      let next = diagnose deps job incident session left (turn + 1) in
      let pack = pack_of deps job incident items missing in
      reply-Returns Legal (deps.ports.analyst_turn session job pack turn)
        (on_turn deps job incident items missing next) (replies pack turn)
        (λ answer legal.
          on_turn-Returns collects items missing next answer legal
            (diagnose-Returns session replies collects left (turn + 1)))

  -- When the evidence and the Analyst always answer, and each turn advises or asks for one to four items,
  -- `run_diagnosis` returns advice, even if no turn ever advises.
  pub run_diagnosis-Returns :
      (session : AnalystSession)
      → Replies (λ found. Unit {0}) (deps.ports.initial_evidence job)
      → ((pack : EvidencePack) (turn : ℕ)
          → Replies Legal (deps.ports.analyst_turn session job pack turn))
      → ((requests : List EvidenceRequest)
          → Replies (λ items. Unit {0}) (deps.ports.collect_evidence job requests))
      → Returns (run_diagnosis deps job incident session)
  unfolding run_diagnosis
  run_diagnosis-Returns session starts replies collects =
      reply-Returns (λ found. Unit {0}) (deps.ports.initial_evidence job)
        (λ (items, missing).
          diagnose deps job incident session deps.config.max_analyst_turns 1 (dedupe_evidence items)
            missing)
        starts
        (λ (items, missing) _.
          diagnose-Returns session replies collects deps.config.max_analyst_turns 1
            (dedupe_evidence items) missing)
