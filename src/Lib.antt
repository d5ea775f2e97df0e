-- ===== src/Lib.antt =====
-- The journal, its storage and its audit of decisions, the router, run ownership, resume contracts
-- and the agent's loop of the beater workspace, a runtime for agent applications.
--
-- The journal (crates/beater-journal) is an SQLite database of runs, of their steps, and of goals
-- with their revisions and milestones. A run may be bound to a revision of a goal; the gate then
-- refuses it once the goal has moved on. Clients send requests on goals under a key; a request that
-- was answered is answered again from the stored response. The router (crates/beater-runtime) maps
-- the files of an application to routes and a request path to a route. The agent (crates/beater-agent)
-- owns a run by a lock file while it works on it. Its loop asks the model, runs the tools that the
-- answer calls, and records both as steps of the journal, each started before and settled after its
-- work. A run that crashed goes on from its journal: a recorded result is used again, and a tool that
-- may have run is run again only if its declaration is the one that was recorded and is idempotent;
-- otherwise the run is parked for review.
--
-- Journal/Model, Store: the types of crates/beater-journal/src/lib.rs and its tables, each a list of
--   rows in the order of insertion. A method is a function `Op` from the database to a result and
--   the database it leaves; the body of a transaction is a `Tx`, whose error abandons its writes.
--   `gate_goal_run_in_tx` writes before its callers fail and they commit, so
--   `require_current_goal_run_in_tx` and `and_then` keep what was written.
-- Journal/Validate: the validators, in the order of their checks. The walk over a parameter passes
--   the number of values that may still be visited, as the source does through a mutable reference.
-- Journal/Runs, Steps, Goals, Milestones, Recording, History: one function per method, under its
--   name, with its helpers by clauses. Journal/Session: the calls that write, and sequences of them.
-- Journal/Projection, Projection/Activity: crates/beater-journal/src/read_projection.rs, two views of
--   a goal, the second in pages of at most 100 revisions. `read_all` in Projection/Walk follows the
--   cursors of the pages, as a client does; a fuel of one page per 100 revisions is enough, by the
--   theorem on it.
-- Journal/Serde, Laws: serde_json and SQLite's TEXT as an interface, and what the proofs assume of
--   it. A float may read back as a neighbour of the float that was written, since serde_json is
--   built without its feature `float_roundtrip`; so a goal is assumed to read back as it was written
--   only if the value of each of its parameters does (`IsStable`, for a goal, a correction and a
--   call). Journal/Examples fills both with documents that are the values themselves.
-- Journal/Keeps, Leads, Frame, RunFrame, StepFrame: rules for what a transaction keeps and
--   establishes. Journal/Gate, Requires, Status, Bound, Steps/Order, Steps/Numbering and the
--   children of Journal/Goals hold the proofs.
-- Router/Decode, Matching, Order, Scan: crates/beater-runtime/src/router.rs. A string is the list of
--   its UTF-8 bytes, a path the list of its components; what WalkDir lists is an argument.
--   Router/Encode is an encoder of paths to compare the decoder with; the source has none.
-- Storage: crates/beater-journal/src/storage.rs up to the call of SQLite, over the metadata of the
--   files, for a user who is not root. Storage/Private: proofs.
-- Ownership: crates/beater-agent/src/ownership.rs over a table of the nodes below the application's
--   root; the lock of a file is a flag, and an ended owner clears it. Ownership/Effects, Exclusion:
--   proofs.
-- Resume/Canonical, Contract: crates/beater-agent/src/resume_contract.rs. The texts of scalars and
--   keys and the digest are parameters (`Formats`). A failed write gives no output, so that the bytes
--   that serde_json hands over in pieces count as one. Resume/Bounds, Reordered: proofs.
-- Audit/Package, Checks, Canonical, Event, Tables, Reading, Continuing, Appending:
--   crates/beater-journal/src/decision_audit.rs, append-only histories of decisions whose events are
--   linked by digests, in two more tables beside the journal's. The derived JSON of the types, the
--   integers of serde_json and the digest are parameters (`AuditFormats`). A blob is its bytes.
--   Audit/Flows: rules for its transactions; Chain, Digested, Appended, Growth, AppendOnly: proofs.
-- Runner/Act: what crates/beater-agent/src/runner.rs does to the world, as a function `Act` from the
--   world to a result and the world that is left; `?` ends a function and what was done stays done.
--   The world is the journal, the tools that ran and the journals in which they ran, the requests that
--   the model got, and how often the clock was read. What the model and the tools of the registry answer, and the clock, are
--   parameters (`Outside`, `Registry`); a tool may answer by all that has run. The tools of
--   decision_tools.rs are an interface (`DecisionTools`), and serde's form of a contract is one
--   (`ContractSerde`).
-- Runner/Tools, Loop, Resuming, Owned, Replay: `execute_tool_step`, `agent_loop`, `resume_async`,
--   `resume_owned` and the test on recorded calls, under the names of the source. `agent_rounds` is
--   the `for` over the 50 rounds (MAX_LOOP_STEPS). Runner/Flows: rules for what an action keeps;
--   Executes, Rounds, Recovery, Bounds, Recorded, Replayable,
--   Agreement: proofs.
--
-- All loops are structural recursion. `now()` is an argument, read once per method. Sequence numbers
-- and ordinals, which the source counts from 0 in an i64, are natural numbers; revisions are
-- integers within the validated bounds. The attempts of a step and the revision that a decision
-- follows are incremented without a check, and wrap around as in a release build. Columns that the source inspects with `typeof` are cells of
-- any SQLite type; the other columns have the type that the code writes. The error values name the
-- failed check; the messages of SQLite and serde_json are one value each.
--
-- Not modelled: the pragmas and the migration in `Journal::open`; in runner.rs what is printed, the
-- closing of browser sessions (its failures are only logged), the export of traces, and the setup of
-- new runs; and the other parts of the crates, which are I/O, bindings, or outside this library;
-- PROJECT.json lists them.
pub mod Prelude
pub mod Result
pub mod Journal
pub mod Router
pub mod Resume
pub mod Ownership
pub mod Storage
pub mod Audit
pub mod Runner
