-- ===== src/Coordinator.antt =====
-- The coordinator's methods of src/lib.rs, by transaction kind.
pub mod Tcc
pub mod Xa
pub mod Control
pub mod Tasks
pub mod Concurrent
pub mod Saga
pub mod Driven
pub mod Messages
pub mod Callbacks
pub mod Recovery
pub mod Evolution
pub mod Giving
pub mod Tracking
pub mod Bodies
pub mod Traces
pub mod Endings
pub mod Lifecycle
pub mod Writes
pub mod Moves
pub mod Operations
pub mod Lives
