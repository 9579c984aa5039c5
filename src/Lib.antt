-- ===== src/Lib.antt =====
-- HerdrHarness Lite: the decisions of the Controller and the ledger that they stand in.
--
-- The program drives one issue of a repository at a time through a Worker, a Reviewer, a pull request
-- and its merge. A durable ledger holds the active Job; a tick of the Controller loads it, acts on the
-- outside world and saves the next revision. When something goes wrong the Job is blocked with an
-- incident, an Analyst advises, and an operator or a policy rule approves a recovery.
--
-- Base            shared names, Boolean tests, lists, texts as code points, integers, sorting.
-- Model           src/model.ts: the types of issues, Attempts, incidents, handoffs and Jobs, digest and
--                 evolveJob; src/pi-rpc-diagnostics.ts: the diagnostics that the policy reads. Model.Encode
--                 gives the objects that are digested; Model.Platform gives what Node is relied on for.
-- Eligibility     src/eligibility.ts: selectNextTask as one round over Maps and one over single issues.
-- Policy          src/policy.ts: allowed actions, incidents, results, the operator's projection, the
--                 reassessment of a held incident and the automatic recovery.
-- Ledger          src/model.ts: assertJobInvariant, as a list of tests with their messages in the order
--                 of the source, and assertTypedHandoff.
-- Handoff         src/handoff.ts: the typed handoffs from one Attempt to the next, and their binding.
-- Controller      Ports, Action: src/ports.ts and src/adapters/json-store.ts. Gates, Reassessment:
--                 src/recovery.ts. The rest is src/controller/. Context, Closing: context.ts and
--                 helpers.ts. Refresh, Delivery: delivery.ts. Integrity: attempt-integrity.ts and the
--                 verification of reviewer-validation.ts. Completion, Review, Settlement:
--                 attempt-settlement.ts and attempt-reconciliation.ts. Diagnosis, Blocked, Waiting,
--                 Applying: recovery-flow.ts. Boundary: automatic-recovery.ts. Diagnostics: the making of
--                 a diagnostic. Steps: the rules by which the calls of a handler are
--                 composed, Saves those of saves and blocks.
--                 Token, Lifecycle, Claim, Archive: task-lifecycle.ts, with names of helpers.ts.
-- Fleet           src/fleet/restart-policy.ts and src/observer/retry.ts.
-- Timeouts        src/runtime-timeouts.ts.
-- Examples        concrete data, and the theorems at it.
--
-- An asynchronous function is an action on a system: the ledger, which only the store writes, and the
-- rest of the world, a type of its own that only the ports read and change. An action answers or throws,
-- and `attempt` is a try block around a call. A numbered record field that the source checks to be a
-- natural number is one here; absent and null values are `none`.
--
-- Parameters: the hash, the JSON form of a text, dates, paths and the order of texts in a language
-- (Node), the path test of src/path-safety.ts, the check of a diagnostic's form
-- (src/pi-rpc-diagnostics.ts), and every port, among them the clock, the ids, GitHub, Git and the
-- files under the store. A port may answer anything and may fail at any call, but it does not write
-- the ledger, and giving the store's lock back does not fail.
--
-- A loop over an array is a recursion on the list. The turns of the Analyst are a recursion on the turns
-- that are left, of which the configuration gives the number, so that no fuel is needed.
--
-- Not modelled: the audit line that the store appends after the rename, whose failure it drops; the
-- start of an Attempt, the making of a Reviewer's receipt, the probe of the runtimes, and the tick that
-- dispatches the handlers; the rest of the fleet and of the observers, the runtimes, the adapters of
-- external programs and the command line.
pub mod Base
pub mod Model
pub mod Eligibility
pub mod Fleet
pub mod Timeouts
pub mod Policy
pub mod Ledger
pub mod Handoff
pub mod Controller
pub mod Examples
