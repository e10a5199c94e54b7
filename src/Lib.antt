-- ===== src/Lib.antt =====
-- The transaction coordinator roze-dtm, from its in-memory store up to the methods and the recovery of its
-- coordinator.
--
-- The program. A coordinator (`Dtm` of src/lib.rs) drives distributed transactions: it loads a transaction
-- from a store, checks its kind and status, claims a barrier for each branch operation, calls the branch's
-- URL, and writes the transaction back. Claims make a repeated operation harmless; a failed call gives its
-- barrier back and puts the branch off by a growing delay. Recovery workers take a lease and move on what is
-- due. Clients register branches and workflow progress while a transaction runs.
--
-- The files.
-- - Common: the shared helpers: Boolean tests, options and lists over native numbers, saturating
--   arithmetic, and orders of keys. Map: a sorted association list for the ordered maps. Decimal: the text
--   of a number and back, as metadata keeps it.
-- - Data: the enumerations and records of src/lib.rs, and one error constructor for each message.
-- - Dynamic: `append_dynamic_branch` and `bump_transaction_revision`.
-- - Memory: `InMemoryTransactionStore`. Memory.Barriers has the claimed keys, Memory.Leases the recovery
--   leases, Memory.Entries the key-value entries (with `KvEntry` of src/kv.rs), and
--   Memory.Transactions the transactions and the store as a whole.
-- - Workflow: the updates of callback workflows: progress, completion and deferral.
-- - Schedule: `transaction_due`, `transaction_next_recovery_millis` and the backoff of failures.
-- - Graph: `validate_dependency_graph`, with the search written as recursion on fuel.
-- - External: what is called of third-party crates, as parameters. Urls: `parse_branch_url`,
--   `alert_branch_url` and `xa_phase2_callback_url`. Callback: `workflow_callback_request`.
--   Limits: `TransactionOptions::validate` and `RetentionPolicy::validate`.
-- - Engine: what a method does to the world, as an action on the store, the calls and the alerts made.
--   Engine.Loops has the rule for loops over the branches.
-- - Topics: src/kv.rs. Submission: `submit` and `expand_message_topics`. Retention:
--   `purge_expired_transactions`.
-- - Coordinator: the methods of `Dtm`. Coordinator.Tcc, Coordinator.Xa, Coordinator.Control,
--   Coordinator.Saga, Coordinator.Concurrent (the concurrent sagas), Coordinator.Tasks (a batch of
--   concurrent calls), Coordinator.Driven (the workflows that the coordinator drives),
--   Coordinator.Messages, Coordinator.Callbacks and Coordinator.Recovery define them.
--   Coordinator.Bodies and Coordinator.Traces say what the loops of TCC and XA call, and
--   Coordinator.Endings how those methods end; Coordinator.Saga.Actions and
--   Coordinator.Saga.Compensations do so for a saga that is started and one that is undone,
--   Coordinator.Saga.Reaching for one where nothing fails, with the rules of Coordinator.Saga.Winning
--   and Coordinator.Saga.Following. Coordinator.Lifecycle, Coordinator.Writes, Coordinator.Moves and
--   Coordinator.Operations say what a method writes that writes once, Coordinator.Evolution,
--   Coordinator.Tracking and the modules named Life what the others write, and Coordinator.Lives what
--   any sequence of them does; a purge, which deletes, is in Retention.Purge.
--   Coordinator.Giving and the modules named Fuel are about termination.
-- - Examples: runs on concrete data.
--
-- How state is modelled. Each operation of the in-memory store holds one lock, so it is one function on
-- the store, and an interleaving of workers is a list of such calls. A method of the coordinator is a
-- function from a world to a result and a world: an error keeps what was written before it. The clock,
-- the outcomes of calls, what other workers do to the store before each access, the orders in which
-- concurrent calls are made and taken back, and the third-party functions are fields of an environment.
-- Where a theorem is about one worker, the environment's other workers change nothing. A JSON value that
-- is only carried is its text. Numbers of 32 and 64 bits are natural numbers with their saturation written
-- out. Log lines are left out.
--
-- Fuel. The search of the dependency graph has one unit more than there are branches. A path of the
-- search visits each branch once, so that is enough, and no run of it ends for want of fuel. The loops of the
-- concurrent sagas and of the driven workflows have one unit more than there are branches too: a round
-- that is followed by another leaves fewer branches to be called, or to be compensated. Topics are
-- updated in at most 64 rounds, as in the source.
--
-- Not modelled. The SQL stores and the Redis store of src/redis_store.rs are statements that a
-- database runs; src/xa.rs drives databases; the clients, the gRPC and HTTP glue and the service
-- make no decisions about transactions. Of the coordinator `reset_retry_batch_after` and the fence of
-- `tick_recover_once_with_lease` are left out.
pub mod Common
pub mod Map
pub mod Decimal
pub mod Data
pub mod Dynamic
pub mod Memory
pub mod Workflow
pub mod Schedule
pub mod Graph
pub mod External
pub mod Urls
pub mod Callback
pub mod Engine
pub mod Limits
pub mod Topics
pub mod Submission
pub mod Retention
pub mod Coordinator
pub mod Examples
