-- ===== src/Model/Evidence.antt =====
-- src/model.ts: what the Analyst is shown and what it answers; `buildEvidencePack` of src/policy.ts.
use herdr_harness_lite.Base.{String, Option, List, ℕ, ◌∷◌, []}
use herdr_harness_lite.Model.Incident.{RecoveryAction, AnalystDiagnosis, Incident}
use herdr_harness_lite.Model.Platform.{Platform}
use herdr_harness_lite.Model.Digest.{Items, no_items, digest, obj, field, item, str, num, end, arr}

pub data EvidenceRequestKind : Type 0 where
  issue_context git_status git_diff worktree_progress test_output : EvidenceRequestKind
  attempt_result attempt_runtime attempt_history controller_health : EvidenceRequestKind
  file_excerpt : EvidenceRequestKind

pub record EvidenceRequest : Type 0 where
  pub kind : EvidenceRequestKind
  pub path : Option String
  pub reason : String

-- `trust` is the constant "untrusted". The fields `ref` and `source` are the item's identity and origin.
pub record EvidenceItem : Type 0 where
  pub reference : String
  pub source : String
  pub summary : String
  pub digest : String

pub record EvidencePack : Type 0 where
  pub incident_id : String
  pub job_id : String
  pub job_revision : ℕ
  pub task_digest : String
  pub digest : String
  pub items : List EvidenceItem
  pub missing : List String

pub record AnalystAnswer : Type 0 where
  pub action : RecoveryAction
  pub summary : String
  pub resolution_brief : String
  pub evidence_refs : List String
  pub unknowns : List String
  pub diagnosis : Option AnalystDiagnosis

pub data AnalystTurn : Type 0 where
  need_evidence : List EvidenceRequest → AnalystTurn
  advised : AnalystAnswer → AnalystTurn

item_values : List EvidenceItem → Items
item_values [] = no_items
item_values (x ∷ xs) =
    item (obj (field "ref" (str x.reference) (field "digest" (str x.digest) end))) (item_values xs)

text_values : List String → Items
text_values [] = no_items
text_values (x ∷ xs) = item (str x) (text_values xs)

unfoldable pub build_evidence_pack :
    Platform → Incident → String → ℕ → String → List EvidenceItem → List String → EvidencePack
unfolding item_values text_values
build_evidence_pack platform incident job_id job_revision task_digest items missing = record {
  incident_id = incident.id;
  job_id = job_id;
  job_revision = job_revision;
  task_digest = task_digest;
  digest = digest platform (
      obj (
        field "incidentId" (str incident.id) (
          field "jobId" (str job_id) (
            field "jobRevision" (num job_revision) (
              field "taskDigest" (str task_digest) (
                field "items" (arr (item_values items))
                  (field "missing" (arr (text_values missing)) end)))))));
  items = items;
  missing = missing;
}
