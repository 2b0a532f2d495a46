-- ===== src/Outbox.antt =====
-- The transactional outbox (pkg/outbox/outbox.go, relay.go, metrics.go): events are inserted in the
-- transaction of the change that they report, and fetched and marked by the relay.
pub mod Event
pub mod Store
pub mod Insert
pub mod Relay
pub mod Order
pub mod Marking
pub mod Sent
pub mod Metrics
pub mod Emptied
