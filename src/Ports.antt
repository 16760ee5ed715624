-- ===== src/Ports.antt =====
-- The ports: what the services see of the adapters, and the connections around them.
pub mod Context
pub mod Server
pub mod Dispatcher
pub mod Prefill
pub mod Transformer
pub mod Listener
