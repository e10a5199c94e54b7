-- ===== src/Data.antt =====
-- The data of a global transaction (src/lib.rs, from `TransactionKind` to `DtmOptions`).
mod Status
mod Branches
mod Transactions
mod Errors
pub use Status.*
unfoldable pub use Branches.*
unfoldable pub use Transactions.*
pub use Errors.*
