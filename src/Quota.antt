-- ===== src/Quota.antt =====
-- apps/common/quota.py: the quotas that the platforms meter per application.
pub mod Breaker
