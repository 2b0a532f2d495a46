-- ===== src/Github.antt =====
-- The clients of GitHub's API: the subscription-api's
-- (services/subscription-api/internal/subscription/github.go), and the scanner's with its cache
-- (services/scanner-service/internal/github/provider.go).
pub mod Client
pub mod Provider
pub mod Refusals
pub mod Caching
