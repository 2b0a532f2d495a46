-- ===== src/Scanner.antt =====
-- The scanner service (services/scanner-service/internal/scanner): the watchlist, the releases that
-- were found, and the commands of the watch saga.
pub mod Repository
pub mod Service
pub mod Atomicity
pub mod Agreement
pub mod Releases
