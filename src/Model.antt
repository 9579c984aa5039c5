-- ===== src/Model.antt =====
-- The ledger's data, of src/model.ts: one child for each part.
pub mod Issue
pub mod Snapshot
pub mod Handoff
pub mod Attempt
pub mod Platform
pub mod Encode
pub mod Digest
pub mod Diagnostic
pub mod Incident
pub mod Job
pub mod Evidence
