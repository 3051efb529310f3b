-- ===== src/Lib.antt =====
-- Verification of masonwing, a multi-tenant platform that runs plugin workflows under budgets,
-- grants and approvals.
--
-- The program's parts and how they interact. The kernel (crates/kernel) holds the rules that need
-- no input or output: the state machines of plugins, runs, approvals, effects and costs, cost
-- reservations, effect records and their transmissions, grants that are delegated, approvals bound
-- to one dispatch, a bound on agent loops, the plugin registry, and the failures and version checks
-- of commands. The contracts (crates/contracts) are the records that cross the application
-- boundary, with validated identifiers and digests. The SDK (crates/sdk) is what a domain plugin
-- sees: packages, invocations, and finite state contracts. The worker (crates/worker) rebuilds a
-- run from its checkpoint rows and asks an interpreter for the next step of the workflow
-- definition; it executes the step, records a checkpoint, and asks again. The budget ledger
-- (platform-plugins/data-postgres) keeps the accounts, reservations and cost events of a tenant in
-- a database; its changes of a reservation's state pass the kernel's cost machine. Its approval
-- commands decide proposals, and its effect commands send effects, record what became of them and
-- settle or release their reservations in the ledger within the same transaction. Before a plugin
-- is installed the same adapter checks its manifest, its dependencies, the lock of the product and
-- its workflow definitions: it resolves dependencies with the kernel's registry, and the
-- definitions that it accepts are those that the worker's interpreter runs.
--
-- Which file models which part:
--   Prelude      byte texts, results, sets and maps as lists, signed integers, and their lemmas
--   Contracts    Wire (crates/contracts/src/wire.rs: the records that the model uses), Values
--                (crates/contracts/src/lib.rs)
--   Sdk          crates/sdk/src/lib.rs: Errors, Versions (`ensure_contract_compatible`), Package,
--                Invocation, Machine (`FiniteStateContract`)
--   Kernel       State (crates/kernel/src/state.rs: Machines holds the five state machines and
--                `can_transition_to`, Parse the names, State itself `VersionedState`), Budget
--                (budget.rs), Effects (effects.rs), Grants (grants.rs), Scope (scope.rs), Approval
--                (approval.rs), LoopGuard (loop_guard.rs), Registry (registry.rs:
--                `DependencyGraph`; Registry/Install: `InstallRegistry`), Runtime (runtime.rs:
--                `CommandFailure`, `PageQuery`, `require_expected_version`)
--   Ledger       platform-plugins/data-postgres/src/budget_ledger.rs: Tables (the rows), Accounts
--                (the statements on accounts), Rows (those on reservations and events), Operations
--                (`reserve_budget`, `settle_budget`, `mark_cost_unknown`, `release_budget`)
--   Registration platform-plugins/data-postgres/src/registry_validation.rs: Manifests
--                (`validate_manifest`), Dependencies (`resolve_manifests`), Workflows
--                (`validate_workflow`), Locks (`validate_lock`)
--   Approvals    platform-plugins/data-postgres/src/approval_commands.rs: Decide
--                (`decide_approval`), Reasons (the test for a blank reason)
--   Delegations  platform-plugins/data-postgres/src/delegation.rs: `require_active_grant`
--   Effects      platform-plugins/data-postgres/src/effect_commands.rs: Tables (the rows), Dispatch
--                (`dispatch_effect`, `reconcile_effect`, with `require_dispatch_enabled` of
--                administration.rs), Admission (`propose_effect`, `compensate_effect`), Recording
--                (`record_effect_unknown`, `record_effect_succeeded`,
--                `apply_reconciliation_evidence`), Operations (sequences of those on effects that
--                exist), Requests (sequences of all of them, proposals and compensations included)
--   Worker       StepKeys and Interpreter (crates/worker/src/run_interpreter.rs), Resume
--                (crates/worker/src/run_resume.rs)
-- A module below one of these holds its laws and keeps its name; Tests holds the unit tests and the
-- theorems at concrete inputs.
--
-- How the code is modelled. A method on `&mut self` takes the state and returns the state
-- afterwards with its result; a callback is a transformer of whatever it acts on. A string is the
-- list of its bytes. A `BTreeMap` is an association list with one entry for a key, a `BTreeSet` a
-- list read through membership. Unsigned integers are natural numbers whose increments are written
-- with their wrap-around, `% 2 ^ 32` or `% 2 ^ 64`; signed ones and instants are integers, and the
-- instants of the database natural numbers of microseconds. An identifier or a digest is its text.
-- A statement of the ledger changes the tables as its text says and fails where a constraint of
-- infra/migrations/0004_effects_and_operations.sql does not hold; a transaction that fails leaves
-- the tables as they were. One reading of the clock stands for those of a command. The fields of a
-- command are typed and a JSON column holds the value that was written, so that failures to decode
-- them do not arise. Failures of the connection and concurrent transactions are left out, and so
-- are the creation times.
--
-- Fuel. `DependencyGraph::resolve` is given one round for each entry of the graph and one more
-- (`stuck` stands for fuel that has run out). The loops of the interpreter count the rounds of the
-- source's own ranges. The decimal digits of a u32 are written with ten rounds, as it has no more
-- digits. The recursive query for the grants above a grant is given one round for each row of the
-- table, as each round takes one off. `drive`, the loop of a worker around the interpreter, is
-- given one round more than the budget of steps.
--
-- Not modelled: the host interface, the identity provider, the adapters that only call a service or
-- a database, the WebAssembly runner, the command line, the products and the web packages. JSON
-- schema validation of node outputs belongs to a library that the source calls, and so does
-- SHA-256, which is a parameter of Sdk/Package: any function from bytes to bytes, of which one
-- theorem needs that it gives 32 bytes. The parsing of versions and version ranges (semver), the
-- schema catalogue and the digest of a definition without its own digest are parameters of
-- Registration, and the fingerprint of an effect, the digest of its canonical JSON, is one of
-- Effects/Admission; the digest and the signature of a manifest are left out.
pub mod Prelude
pub mod Contracts
pub mod Kernel
pub mod Sdk
pub mod Ledger
pub mod Registration
pub mod Approvals
pub mod Delegations
pub mod Effects
pub mod Worker
