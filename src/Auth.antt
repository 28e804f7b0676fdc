-- ===== src/Auth.antt =====
-- Authentication: its tables, refresh sessions, one-time links, permissions, rate limits.
pub mod Store
pub mod Fixture
pub mod Sessions
pub mod Permissions
pub mod Api
pub mod ActionTokens
pub mod RateLimit
