-- ===== src/Controller/Diagnosis.antt =====
-- src/controller/recovery-flow.ts: `runDiagnosis`, the turns of the Analyst, and what of its answer is
-- recorded; `dedupeEvidence` of src/controller/helpers.ts.
use herdr_harness_lite.Controller.Action.{◌>>=◌, ◌>>◌, Action, now, next_id, perform, pure, require}
use herdr_harness_lite.Base.{
  Option, Bool, List, String, ℕ, if◌then◌else◌, every, ◌∷◌, ◌/=◌, map, [], filter, includes, ◌++◌,
  ◌&&◌, none, string_eq, some, not, suc, some_of, ◌==◌, ◌||◌, ◌+◌, zero, is_empty, leb, length,
}
use herdr_harness_lite.Model.Incident.{
  Incident, RecoveryAction, AnalystDiagnosis, hold, AnalystAdvice, recovery_action_eq,
  AnalystHypothesis,
}
use herdr_harness_lite.Controller.Ports.{Deps}
use herdr_harness_lite.Model.Evidence.{
  EvidenceItem, EvidencePack, AnalystAnswer, build_evidence_pack, AnalystTurn, need_evidence,
  advised,
}
use herdr_harness_lite.Model.Job.{Job, AnalystSession}
use herdr_harness_lite.Base.Text.{is_blank, ◌<>◌}
use herdr_harness_lite.Model.Encode.{action_text, class_text}

abbrev pub references : List EvidenceItem → List String
references items = map (λ x. x.reference) items

-- The loop of `dedupeEvidence`, with the references that it has seen.
unfoldable pub unseen_evidence : List String → List EvidenceItem → List EvidenceItem
unseen_evidence seen [] = []
unseen_evidence seen (x ∷ xs) =
    let skipped = unseen_evidence seen xs in
    let kept = unseen_evidence (x.reference ∷ seen) xs in
    if is_blank x.reference || includes seen x.reference then skipped else x ∷ kept

-- `slice(0, n)`
unfoldable pub take_evidence : ℕ → List EvidenceItem → List EvidenceItem
take_evidence zero xs = []
take_evidence (suc n) [] = []
take_evidence (suc n) (x ∷ xs) = x ∷ take_evidence n xs

unfoldable pub dedupe_evidence : List EvidenceItem → List EvidenceItem
unfolding unseen_evidence take_evidence
dedupe_evidence items = take_evidence 32 (unseen_evidence [] items)

-- The requested items that are there now are no longer missing.
abbrev pub still_missing : List String → List EvidenceItem → List String
still_missing missing collected =
    filter (λ entry. not (some_of (λ x. x.source == entry) collected)) missing

abbrev pub all_known : List String → List String → Bool
all_known known refs = every (includes known) refs

abbrev pub cited_by_all : List AnalystHypothesis → List String
cited_by_all [] = []
cited_by_all (h ∷ hs) = h.evidence_refs ++ cited_by_all hs

abbrev pub cited_by : Option AnalystDiagnosis → List String
cited_by none = []
cited_by (some d) = cited_by_all d.hypotheses

abbrev pub bound_hypothesis : List String → AnalystHypothesis → AnalystHypothesis
bound_hypothesis known h = record h { evidence_refs = filter (includes known) h.evidence_refs }

abbrev pub bound_diagnosis : List String → AnalystDiagnosis → AnalystDiagnosis
bound_diagnosis known d = record d { hypotheses = map (bound_hypothesis known) d.hypotheses }

-- An action, and what is not known, after each of the tests that turn an answer into a hold.
abbrev Verdict : Type 0
Verdict = RecoveryAction × List String

abbrev forbid : Incident → Verdict → Verdict
forbid incident (action, unknowns) =
    if includes incident.allowed_actions action then (action, unknowns) else (
      hold,
      unknowns
          ++ (("action "
                <> action_text action
                <> " is forbidden for incident class "
                <> class_text incident.block_class)
              ∷ []),
    )

abbrev want_brief : String → Verdict → Verdict
want_brief brief (action, unknowns) =
    if action /= hold && is_blank brief
    then (hold, unknowns ++ ("retry recommendation has no bounded resolution brief" ∷ []))
    else (action, unknowns)

abbrev want_known : Bool → Verdict → Verdict
want_known known (action, unknowns) =
    if known
    then (action, unknowns)
    else (hold, unknowns ++ ("Analyst cited evidence outside the bounded pack" ∷ []))

-- The advice that is recorded of an answer.
unfoldable pub accept_answer :
    Incident → EvidencePack → AnalystAnswer → String → String → AnalystAdvice
accept_answer incident pack answer id created_at =
    let known = references pack.items in
    let cited = answer.evidence_refs ++ cited_by answer.diagnosis in
    let verdict =
      want_known (all_known known cited)
        (want_brief answer.resolution_brief (forbid incident (answer.action, answer.unknowns))) in
    record {
      id = id;
      incident_id = incident.id;
      evidence_digest = pack.digest;
      action = verdict.0;
      summary = answer.summary;
      resolution_brief = if verdict.0 == hold then "" else answer.resolution_brief;
      evidence_refs = filter (includes known) answer.evidence_refs;
      unknowns = verdict.1;
      diagnosis = elim answer.diagnosis [ none ↦ none | some d ↦ some (bound_diagnosis known d) ];
      created_at = created_at;
    }

-- The advice when the turns are used up.
unfoldable pub exhausted_advice : Incident → EvidencePack → String → String → AnalystAdvice
exhausted_advice incident pack id created_at = record {
  id = id;
  incident_id = incident.id;
  evidence_digest = pack.digest;
  action = hold;
  summary = "自动诊断未完成：在允许的证据轮数内仍缺少关键证据。";
  resolution_brief = "";
  evidence_refs = references pack.items;
  unknowns = "所需证据超出 Harness 本轮允许的收集范围" ∷ [];
  diagnosis = none;
  created_at = created_at;
}

module _ {E : Type 0} (deps : Deps E) (job : Job) (incident : Incident) where
  abbrev pub pack_of : List EvidenceItem → List String → EvidencePack
  pack_of items missing =
      build_evidence_pack deps.platform incident job.id job.revision job.task.digest items missing

  unfoldable pub record_answer : EvidencePack → AnalystAnswer → Action E AnalystAdvice
  unfolding accept_answer
  record_answer pack answer = do
    created_at ← now deps
    id ← next_id deps "analysis"
    pure (accept_answer incident pack answer id created_at)

  unfoldable pub record_exhausted : EvidencePack → Action E AnalystAdvice
  unfolding exhausted_advice
  record_exhausted pack = do
    id ← next_id deps "analysis"
    created_at ← now deps
    pure (exhausted_advice incident pack id created_at)

  -- One turn's answer, and the turns that follow it.
  unfoldable pub on_turn :
      List EvidenceItem
      → List String
      → (List EvidenceItem → List String → Action E AnalystAdvice)
      → AnalystTurn
      → Action E AnalystAdvice
  unfolding record_answer dedupe_evidence build_evidence_pack
  on_turn items missing next (need_evidence requests) =
      require (not (is_empty requests) && leb (length requests) 4)
        "Analyst requested an invalid number of evidence items"
      >> (perform (deps.ports.collect_evidence job requests) >>= λ collected.
          next (dedupe_evidence (items ++ collected)) (still_missing missing collected))
  on_turn items missing next (advised answer) = record_answer (pack_of items missing) answer

  -- The turns that are left, from the given one on.
  unfoldable pub diagnose :
      AnalystSession → ℕ → ℕ → List EvidenceItem → List String → Action E AnalystAdvice
  unfolding on_turn record_exhausted build_evidence_pack
  diagnose session zero turn items missing = record_exhausted (pack_of items missing)
  diagnose session (suc left) turn items missing =
      perform (deps.ports.analyst_turn session job (pack_of items missing) turn)
      >>= on_turn items missing (diagnose session left (turn + 1))

  unfoldable pub run_diagnosis : AnalystSession → Action E AnalystAdvice
  unfolding diagnose dedupe_evidence
  run_diagnosis session = perform (deps.ports.initial_evidence job) >>= λ (items, missing).
      diagnose session deps.config.max_analyst_turns 1 (dedupe_evidence items) missing
