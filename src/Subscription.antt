-- ===== src/Subscription.antt =====
-- The subscriptions of the subscription-api
-- (services/subscription-api/internal/subscription): the repository, the service over it, and the
-- expansion of a release into a notification for each subscriber.
pub mod Rows
pub mod Repository
pub mod Publisher
pub mod Service
pub mod Atomicity
pub mod Confirm
pub mod Compensation
pub mod Leaving
pub mod Expansion
pub mod Subscribers
pub mod Consent
pub mod Interrupted
