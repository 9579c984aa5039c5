-- ===== src/Controller.antt =====
-- src/controller/, the handlers of the Controller, src/recovery.ts, the operator's gates, and
-- src/adapters/json-store.ts, the store. An asynchronous handler is an action on the system: the ledger,
-- which the durable store keeps, and the rest of the world, which only the ports read and change. An
-- action returns or throws.
pub mod Ports
pub mod Action
pub mod Gates
pub mod Store
pub mod Sequence
pub mod Opening
pub mod Reassessment
pub mod Approval
pub mod Once
pub mod Diagnostics
pub mod Context
pub mod Diagnosis
pub mod Advice
pub mod SoundAdvice
pub mod Turns
pub mod Commits
pub mod Closing
pub mod Integrity
pub mod Completion
pub mod Review
pub mod Settlement
pub mod Token
pub mod Lifecycle
pub mod Claim
pub mod Archive
pub mod Boundary
pub mod Blocked
pub mod Waiting
pub mod Applying
pub mod Steps
pub mod Saves
pub mod Refresh
pub mod Delivery
pub mod RefreshSteps
pub mod DeliverySteps
pub mod MergeSteps
pub mod ClosingSteps
pub mod IntegritySteps
pub mod CompletionSteps
pub mod ReviewSteps
pub mod SettlementSteps
pub mod ClaimSteps
pub mod Slot
pub mod Taking
pub mod BoundarySteps
pub mod PassedBoundary
pub mod BlockedSteps
pub mod WaitingSteps
pub mod ApplyingSteps
pub mod RecoveringSteps
