-- ===== src/Http.antt =====
-- The HTTP API of the subscription-api (services/subscription-api/internal/httpapi: router.go,
-- access.go), and request ids (pkg/requestid/requestid.go).
pub mod Patterns
pub mod Router
pub mod Repositories
pub mod Guards
pub mod Outcomes
pub mod Consent
pub mod Access
