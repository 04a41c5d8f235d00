-- ===== src/ApiKeys.antt =====
-- The keys of the agent API: apps/api_keys/services.py and models.py.
pub mod Tokens
pub mod Keys
