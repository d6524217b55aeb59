-- ===== src/Spend.antt =====
-- The allowance ledger of packages/database/src/index.ts: the tables `agent_allowances` and
-- `allowance_spend_reservations` of packages/database/migrations/005_authorization_reservations.sql,
-- and the methods of `PostgresStore` that write them. A transaction that throws is rolled back, so
-- a method returns the new tables or the error. Times are milliseconds; `now` is the one clock of
-- the process and of the database, and is an argument of each method.
pub mod Invariant
pub mod Closing
pub mod Settling
pub mod Expiry
pub mod Cleaning
pub mod Moving
pub mod Accounts
pub mod Upkeep
pub mod Deleting
pub mod History
pub mod Holding
pub mod Reserving
pub mod Tests
pub mod Tables
pub mod Allowances
pub mod Reservations
unfoldable pub use Tables.*
unfoldable pub use Allowances.*
unfoldable pub use Reservations.*
