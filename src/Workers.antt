-- ===== src/Workers.antt =====
-- The processes (services/*/main.go, services/*/cmd/*/main.go): the handlers that they give to their
-- Kafka consumers, the choice of a transport, the settings of the services, and what they start.
pub mod Handlers
pub mod Requests
pub mod Processes
pub mod Transports
pub mod Malformed
