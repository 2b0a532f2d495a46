-- ===== src/Watchsaga.antt =====
-- The orchestrator of the repository watch saga
-- (services/subscription-api/internal/watchsaga/orchestrator.go): it turns requests into commands
-- for the scanner, follows the acknowledgements, and retries until a deadline.
pub mod Rules
pub mod Orchestrator
pub mod Atomicity
pub mod Validity
pub mod Final
pub mod Requests
pub mod Acks
pub mod Backoff
pub mod Lifecycle
pub mod Refinement
pub mod Swept
pub mod Resent
pub mod Sweep
