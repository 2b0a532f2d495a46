-- ===== src/Db.antt =====
-- Transactions on a service's PostgreSQL database, as the repositories use them through pgx, and
-- what follows for an action from how it is built.
mod Exec
pub mod Keeps
pub mod Atomic
pub mod Success
pub mod Carries
unfoldable pub use Exec.*
