-- ===== src/Examples.antt =====
-- Concrete inputs on which the theorems apply, and tests of definitions.
pub mod Values
pub mod Saga
pub mod Services
pub mod Writes
pub mod Requests
pub mod Migrated
pub mod Confirmations
pub mod Configured
pub mod Logs
pub mod Relays
pub mod Followed
pub mod Started
