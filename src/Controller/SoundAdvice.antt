-- ===== src/Controller/SoundAdvice.antt =====
-- src/controller/recovery-flow.ts: what the advice of a diagnosis may say, and on which evidence.
use herdr_harness_lite.Controller.Diagnosis.{
  dedupe_evidence, accept_answer, references, all_known, exhausted_advice, record_answer,
  record_exhausted, run_diagnosis, on_turn, diagnose, pack_of, still_missing, cited_by,
  cited_by_all, bound_hypothesis, bound_diagnosis,
}
use herdr_harness_lite.Base.{
  String, List, every, filter, includes, ℕ, ◌∷◌, Bool, In, arith, ◌≡◌, suc, [], inl, false, zero,
  true, refl, string_eq, inr, ◌⊎◌, ap, sym, ◌∙◌, ◌+◌, ◌++◌, Option, none, map, some,
}
use herdr_harness_lite.Model.Incident.{
  Incident, AnalystAdvice, hold, recovery_action_eq, AnalystHypothesis, AnalystDiagnosis,
}
use herdr_harness_lite.Model.Evidence.{
  EvidencePack, EvidenceItem, AnalystAnswer, build_evidence_pack, AnalystTurn, advised,
  need_evidence, EvidenceRequest,
}
use herdr_harness_lite.Base.Text.{is_blank}
use herdr_harness_lite.Controller.Ports.{Deps, throw, ok, Call}
use herdr_harness_lite.Controller.Action.{
  Action, System, ◌>>=◌, now, next_id, pure, perform, require,
}
use herdr_harness_lite.Base.Membership.{In→includes}
use herdr_harness_lite.Model.Job.{Job, AnalystSession}
use herdr_harness_lite.Controller.Sequence.{bind-cases}
use mathlib.Core.Path.{subst}
use herdr_harness_lite.Controller.Advice.{dedupe_evidence-Fits, Fits}

filter-every : (p : String → Bool) (xs : List String) → every p (filter p xs) ≡ true
unfolding every filter
filter-every p [] = refl
filter-every p (x ∷ xs) = ground (arith, filter-every p xs)

-- Advice that is bound to an incident and a pack: it holds, or advises with a brief what the incident
-- allows, and it and the hypotheses of its diagnosis cite only the pack.
abbrev pub Sound : Incident → EvidencePack → AnalystAdvice → Type 0
Sound incident pack a =
    (a.incident_id ≡ incident.id)
    × (a.evidence_digest ≡ pack.digest)
    × (all_known (references pack.items) a.evidence_refs ≡ true)
    × (all_known (references pack.items) (cited_by a.diagnosis) ≡ true)
    × ((a.action ≡ hold)
        ⊎ ((includes incident.allowed_actions a.action ≡ true)
            × (is_blank a.resolution_brief ≡ false)))

every-append :
    (p : String → Bool) (xs ys : List String)
    → every p xs ≡ true
    → every p ys ≡ true
    → every p (xs ++ ys) ≡ true
unfolding every
every-append p [] ys h k = k
every-append p (x ∷ xs) ys h k = let rest = every-append p xs ys (ground arith) k in ground arith

hypotheses-known :
    (known : List String) (hs : List AnalystHypothesis)
    → all_known known (cited_by_all (map (bound_hypothesis known) hs)) ≡ true
unfolding every
hypotheses-known known [] = refl
hypotheses-known known (h ∷ hs) =
    every-append (includes known) (filter (includes known) h.evidence_refs)
      (cited_by_all (map (bound_hypothesis known) hs))
      (filter-every (includes known) h.evidence_refs) (hypotheses-known known hs)

diagnosis-known :
    (known : List String) (o : Option AnalystDiagnosis)
    → all_known known (cited_by (elim o [ none ↦ none | some d ↦ some (bound_diagnosis known d) ]))
      ≡ true
unfolding every
diagnosis-known known none = refl
diagnosis-known known (some d) = hypotheses-known known d.hypotheses

accept_answer-Sound :
    (incident : Incident) (pack : EvidencePack) (answer : AnalystAnswer) (id created_at : String)
    → Sound incident pack (accept_answer incident pack answer id created_at)
unfolding accept_answer
accept_answer-Sound incident pack answer id created_at = (
  refl,
  refl,
  filter-every (includes (references pack.items)) answer.evidence_refs,
  diagnosis-known (references pack.items) answer.diagnosis,
  ground arith,
)

all-known :
    (known refs : List String)
    → ((r : String) → In r refs → In r known)
    → all_known known refs ≡ true
unfolding every
all-known known [] h = refl
all-known known (r ∷ rs) h =
    let here = In→includes known r (h r (inl refl)) in
    let rest = all-known known rs (λ x m. h x (inr m)) in ground arith

exhausted_advice-Sound :
    (incident : Incident) (pack : EvidencePack) (id created_at : String)
    → Sound incident pack (exhausted_advice incident pack id created_at)
unfolding exhausted_advice every
exhausted_advice-Sound incident pack id created_at = (
  refl,
  refl,
  all-known (references pack.items) (references pack.items) (λ r m. m),
  refl,
  inl refl,
)

-- What an action answers, if it answers.
abbrev pub Answers : {E A : Type 0} → (A → Type 0) → Action E A → Type 0
Answers {E} {A} P m = (s : System E) (a : A) → (m s).0 ≡ ok a → P a

bind-Answers :
    {E A B : Type 0} (P : B → Type 0) (m : Action E A) (f : A → Action E B)
    → ((a : A) → Answers P (f a))
    → Answers P (m >>= f)
bind-Answers P m f k s b e = elim (bind-cases m f s) [
  | inl (a, r, step) ↦ k a (m s).1 b (ap (λ p. p.0) (sym step) ∙ e)
  | inr (message, step) ↦ absurd (thrown message (ap (λ p. p.0) (sym step) ∙ e))
]
  where
    thrown : (message : String) → throw message ≡ ok b → ⊥
    thrown message h = cc

pure-Answers : {E A : Type 0} (P : A → Type 0) (a : A) → P a → Answers P (pure {E = E} a)
pure-Answers P a p s b e = subst P (returned e) p
  where
    returned : ok a ≡ ok b → a ≡ b
    returned h = cc

performed-Answers :
    {E A B : Type 0} (P : B → Type 0) (call : Call E A) (f : A → Action E B)
    → ((a : A) (e : E) → (call e).0 ≡ ok a → Answers P (f a))
    → Answers P (perform call >>= f)
performed-Answers P call f k s b e = elim (bind-cases (perform call) f s) [
  | inl (a, r, step) ↦ k a s.env r (perform call s).1 b (ap (λ p. p.0) (sym step) ∙ e)
  | inr (message, step) ↦ absurd (thrown message (ap (λ p. p.0) (sym step) ∙ e))
]
  where
    thrown : (message : String) → throw message ≡ ok b → ⊥
    thrown message h = cc

-- Evidence that the port has answered, at the start or when it was asked to collect more.
abbrev pub IsEvidence : {E : Type 0} → Deps E → Job → EvidenceItem → Type 0
IsEvidence {E} deps job x =
    ((e : E) × (items : List EvidenceItem) × (missing : List String) × ((deps.ports.initial_evidence
          job e).0
        ≡ ok (items, missing))
      × In x items)
    ⊎ ((e : E) × (requests : List EvidenceRequest) × (items : List EvidenceItem)
        × ((deps.ports.collect_evidence job requests e).0 ≡ ok items)
        × In x items)

-- Evidence for a pack: it fits, and the port has answered all of it.
abbrev pub IsGathered : {E : Type 0} → Deps E → Job → List EvidenceItem → Type 0
IsGathered deps job items = Fits items × ((x : EvidenceItem) → In x items → IsEvidence deps job x)

-- Advice on the pack that is built from gathered evidence.
abbrev pub Advised : {E : Type 0} → Deps E → Job → Incident → AnalystAdvice → Type 0
Advised deps job incident a =
    (items : List EvidenceItem) × (missing : List String) × IsGathered deps job items
    × Sound incident (pack_of deps job incident items missing) a

In-append_cases :
    (xs ys : List EvidenceItem) (x : EvidenceItem) → In x (xs ++ ys) → In x xs ⊎ In x ys
In-append_cases [] ys x m = inr m
In-append_cases (z ∷ zs) ys x m = elim m [
  | inl e ↦ inl (inl e)
  | inr k ↦ elim (In-append_cases zs ys x k) [ inl l ↦ inl (inr l) | inr r ↦ inr r ]
]

dedupe_evidence-IsGathered :
    {E : Type 0} (deps : Deps E) (job : Job) (items : List EvidenceItem)
    → ((x : EvidenceItem) → In x items → IsEvidence deps job x)
    → IsGathered deps job (dedupe_evidence items)
dedupe_evidence-IsGathered deps job items h =
    let (fits, given) = dedupe_evidence-Fits items in (fits, (λ x m. h x (given x m).0))

module _ {E : Type 0} (deps : Deps E) (job : Job) (incident : Incident) where
  record_answer-Advised :
      (items : List EvidenceItem) (missing : List String) (answer : AnalystAnswer)
      → IsGathered deps job items
      → Answers
          (Advised deps job incident)
          (record_answer deps job incident (pack_of deps job incident items missing) answer)
  unfolding record_answer
  record_answer-Advised items missing answer gathered =
      let pack = pack_of deps job incident items missing in
      let record_at : String → String → Action E AnalystAdvice =
        λ at id. pure (accept_answer incident pack answer id at) in
      let record_with : String → Action E AnalystAdvice =
        λ at. next_id deps "analysis" >>= record_at at in
      bind-Answers (Advised deps job incident) (now deps) record_with (λ at.
        bind-Answers (Advised deps job incident) (next_id deps "analysis") (record_at at) (λ id.
          pure-Answers (Advised deps job incident) (accept_answer incident pack answer id at)
            (items, missing, gathered, accept_answer-Sound incident pack answer id at)))

  record_exhausted-Advised :
      (items : List EvidenceItem) (missing : List String)
      → IsGathered deps job items
      → Answers
          (Advised deps job incident)
          (record_exhausted deps job incident (pack_of deps job incident items missing))
  unfolding record_exhausted
  record_exhausted-Advised items missing gathered =
      let pack = pack_of deps job incident items missing in
      let record_at : String → String → Action E AnalystAdvice =
        λ id at. pure (exhausted_advice incident pack id at) in
      let record_with : String → Action E AnalystAdvice = λ id. now deps >>= record_at id in
      bind-Answers (Advised deps job incident) (next_id deps "analysis") record_with (λ id.
        bind-Answers (Advised deps job incident) (now deps) (record_at id) (λ at.
          pure-Answers (Advised deps job incident) (exhausted_advice incident pack id at)
            (items, missing, gathered, exhausted_advice-Sound incident pack id at)))

  on_turn-Advised :
      (items : List EvidenceItem) (missing : List String)
      (next : List EvidenceItem → List String → Action E AnalystAdvice) (turn : AnalystTurn)
      → IsGathered deps job items
      → ((more : List EvidenceItem) (rest : List String)
          → IsGathered deps job more
          → Answers (Advised deps job incident) (next more rest))
      → Answers (Advised deps job incident) (on_turn deps job incident items missing next turn)
  unfolding on_turn build_evidence_pack
  on_turn-Advised items missing next (advised answer) gathered k =
      record_answer-Advised items missing answer gathered
  on_turn-Advised items missing next (need_evidence requests) gathered k =
      let go_on : List EvidenceItem → Action E AnalystAdvice = λ collected.
        next (dedupe_evidence (items ++ collected)) (still_missing missing collected) in
      bind-Answers (Advised deps job incident) (require _ _)
        (λ _. perform (deps.ports.collect_evidence job requests) >>= go_on)
        (λ _.
          performed-Answers (Advised deps job incident) (deps.ports.collect_evidence job requests)
            go_on
            (λ collected e answered. k _ _ (
              dedupe_evidence-IsGathered deps job (items ++ collected) (λ x m.
                elim (In-append_cases items collected x m) [
                  | inl old ↦ gathered.1 x old
                  | inr new ↦ inr (e, requests, collected, answered, new)
                ]))))

  diagnose-Advised :
      (session : AnalystSession) (left turn : ℕ) (items : List EvidenceItem) (missing : List String)
      → IsGathered deps job items
      → Answers
          (Advised deps job incident)
          (diagnose deps job incident session left turn items missing)
  unfolding diagnose build_evidence_pack
  diagnose-Advised session zero turn items missing gathered =
      record_exhausted-Advised items missing gathered
  diagnose-Advised session (suc left) turn items missing gathered =
      let next = diagnose deps job incident session left (turn + 1) in
      bind-Answers (Advised deps job incident)
        (perform
          (deps.ports.analyst_turn session job (pack_of deps job incident items missing) turn))
        (on_turn deps job incident items missing next)
        (λ answer.
          on_turn-Advised items missing next answer gathered
            (diagnose-Advised session left (turn + 1)))

  -- Whatever the evidence and the Analyst answer, the advice that `run_diagnosis` returns is about the
  -- incident and bound to the digest of the pack that is built for it from at most 32 items with distinct
  -- references, all of which the evidence port has answered. The advice and the hypotheses of its diagnosis
  -- cite only that pack, and it holds or, with a brief that is not blank, advises what the incident allows.
  pub run_diagnosis-Advised :
      (session : AnalystSession)
      → Answers (Advised deps job incident) (run_diagnosis deps job incident session)
  unfolding run_diagnosis
  run_diagnosis-Advised session =
      performed-Answers (Advised deps job incident) (deps.ports.initial_evidence job)
        (λ (items, missing).
          diagnose deps job incident session deps.config.max_analyst_turns 1 (dedupe_evidence items)
            missing)
        (λ (items, missing) e answered.
          diagnose-Advised session deps.config.max_analyst_turns 1 (dedupe_evidence items) missing (
            dedupe_evidence-IsGathered deps job items
              (λ x m. inl (e, items, missing, answered, m))))
