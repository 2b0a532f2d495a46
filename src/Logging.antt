-- ===== src/Logging.antt =====
-- The set-up of the logs and the hook that sends them to Vector (pkg/logger/setup.go).
pub mod Hook
pub mod Setup
pub mod Steps
pub mod Accounts
pub mod Told
pub mod Order
pub mod Drain
