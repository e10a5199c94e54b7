-- ===== src/Memory.antt =====
-- `InMemoryTransactionStore` of src/lib.rs, in child modules: each map of the store with its
-- operations, and the store that holds the four.
pub mod Barriers
pub mod Leases
pub mod Entries
pub mod Transactions
