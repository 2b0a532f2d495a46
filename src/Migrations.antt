-- ===== src/Migrations.antt =====
-- The migrations of the services' databases (pkg/migrations/migrations.go): which files are
-- migrations, how their list is loaded, and how it is run.
pub mod Names
pub mod Load
pub mod Order
pub mod Run
pub mod Outcome
pub mod Atomicity
pub mod Records
pub mod Again
