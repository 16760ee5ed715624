-- ===== src/Adapter.antt =====
-- `src/server/adapters/`
pub mod Kv
pub mod Mq
pub mod Rest
