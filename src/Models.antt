-- ===== src/Models.antt =====
-- The data that the services exchange: `src/univention/provisioning/models/`.
pub mod Json
pub mod Pydantic
pub mod Subscription
pub mod Queue
pub mod Requests
