-- ===== src/Delivery.antt =====
-- Email delivery in the notification service
-- (services/notification-service/internal/delivery): the record of each notification, sending it,
-- and the retries and dead letters of what could not be sent.
pub mod Repository
pub mod Service
pub mod Final
pub mod Waits
pub mod Attempts
pub mod Atomicity
pub mod Rows
pub mod Marks
pub mod Retried
pub mod Bounds
