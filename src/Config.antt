-- ===== src/Config.antt =====
-- The configuration of the services from environment variables: pkg/env (Env), pkg/config (Shared),
-- and the services' internal/config (Services).
pub mod Env
pub mod Shared
pub mod Services
