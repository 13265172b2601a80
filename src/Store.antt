-- ===== src/Store.antt =====
-- internal/store: the SQLite tables, and the transactions that the other parts run on them.
pub mod Tables
pub mod Headers
pub mod Rows
pub mod Work
pub mod Invariant
pub mod Update
pub mod Insert
pub mod Touch
pub mod Poll
pub mod Recovery
pub mod Attempts
pub mod Routing
pub mod Retention
