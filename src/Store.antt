-- ===== src/Store.antt =====
-- internal/store.
pub mod Rows
pub mod Tables
pub mod Tx
pub mod Queries
pub mod Ensures
pub mod Dispatch
pub mod Confirm
pub mod Retry
pub mod Manual
pub mod Prepare
pub mod Results
pub mod Claims
pub mod Audit
pub mod Changes
pub mod Calls
pub mod Pages
pub mod Listing
pub mod Schema
pub mod Refusals
pub mod Progress
pub mod Sizes
pub mod Tests
