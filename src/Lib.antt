-- ===== src/Lib.antt =====
-- Localoud runs coding tasks on several models: it routes a request to a local model, to Codex, to an
-- API provider or to the planner Astra, compiles plans into task graphs, runs these with bounded
-- concurrency, and gives every worker a bounded context. This library models the parts of the Rust
-- crates that decide; each operation of the code is a function, fallible code gives a result with the
-- error as a constructor, and code that changes a store gives the store that it leaves.
--
-- The parts, and how they interact:
-- - Base: shared names, lists measured by native numbers, results, texts and an interface for `f64`.
-- - Core (crates/hub-core/src/lib.rs): the domain types, the status machine of a task
--   (`TaskStatus::can_transition`) and the validation of a budget.
-- - Scheduler (crates/hub-scheduler/src/lib.rs): `Dag::new`, `refresh` and `transition`, and in
--   Scheduler/Execute the loop of `execute`, which starts tasks on a runner. The
--   hash map of the tasks is a list with distinct keys, in an order that the model leaves open.
-- - Local (crates/protocol-types/src/local.rs): what local models are asked and answer.
-- - Router (crates/hub-router/src/lib.rs): which executor a request of Local goes to.
-- - Auto (crates/hub-router/src/automatic.rs): difficulty levels and other routes mapped to models by
--   named agents, when a request is to be planned first, and the scope of a chosen local model.
-- - Handoff (crates/hub-context/src/handoff.rs): the selection of evidence that fits a byte limit.
-- - A2a (crates/protocol-types/src/a2a.rs): the validation of messages between agents.
-- - Context (crates/hub-context/src/lib.rs, with rows of crates/hub-db/src/lib.rs): the capsule of a
--   task and the retrievals that its budget pays for.
-- - Plan (crates/hub-runtime/src/plan.rs, with briefs of crates/hub-runtime/src/workers.rs): a plan
--   becomes a graph of Scheduler, and a graph is recovered after a restart.
-- - Providers (crates/protocol-types/src/providers.rs): the profiles of model providers and what an
--   inference is asked and answers.
-- - Db (crates/hub-db/src/lib.rs with migrations/): the durable store. Db/Approvals has the one-shot
--   approvals of tools, Db/Sessions the threads with their projects and settings, Db/Turns the turns
--   and events that change their status, Db/Profiles the profiles of Providers as rows,
--   Db/Segments the segments in which one model serves a thread, Db/Reviews the runs of reviews.
-- - Api (crates/provider-api/src/lib.rs): in Api/Sse the streams of server-sent events, in
--   Api/Chat the chat streams that are made of them.
-- - Policy (crates/hub-policy/src/lib.rs): what is taken out of texts and JSON values for the journal.
--
-- Bounds and fuel. The cycle check of `Dag::new` has one round more than there are tasks, since a
-- round that goes on orders a task. The loop of `execute` has one round more than there are tasks,
-- since a round that goes on ends a task. The closure of a handoff has one round more than there are
-- groups, since a round that goes on selects a group. The cutting of a retrieval
-- has two rounds more than the text has characters, since every round but the last cuts at least one.
-- Numbers of a fixed width wrap where the code's arithmetic can; a saturating operation is written out.
--
-- The runner of `execute` (`TaskRunner`, with the task set of tokio) answers whenever it is asked which
-- job finishes next: a job that never ends is not modelled, and what is stated of `execute` is stated
-- for runners whose jobs end. A panic on a key that a map does not have is an error of the model.
--
-- Parameters stand for code outside the repository: the parsers of URLs and of JSON bodies, the
-- Unicode case mapping, the service of the local model, JSON texts, regular expressions for secrets,
-- the file system, searches, and the results of tasks. A UUID is a number, and one that is drawn is an
-- argument. Not modelled: the providers' HTTP requests, usage records and the other tables of the
-- store, the command line, the desktop host, git worktrees and the agents' sessions.
pub mod Base
pub mod Core
pub mod Scheduler
pub mod Local
pub mod Router
pub mod Auto
pub mod Handoff
pub mod A2a
pub mod Context
pub mod Plan
pub mod Providers
pub mod Db
pub mod Api
pub mod Policy
