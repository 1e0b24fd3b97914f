-- ===== src/Store.antt =====
-- The database that the services share (backend/apps/*/models.py), the errors that they raise and
-- the transactions in which they run.
mod Rows
mod Errors
mod Transaction
mod Tables
pub mod Hoare
pub use Rows.*
pub use Errors.*
unfoldable pub use Transaction.*
unfoldable pub use Tables.*
