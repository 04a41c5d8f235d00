-- ===== src/Api.antt =====
-- apps/api: the limits of the agent API.
pub mod Limits
pub mod Idempotency
