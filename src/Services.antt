-- ===== src/Services.antt =====
-- `src/server/services/`
pub mod Passwords
pub mod Backend
pub mod Subscriptions
pub mod Registry
pub mod Auth
pub mod Messages
