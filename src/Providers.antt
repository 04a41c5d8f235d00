-- ===== src/Providers.antt =====
-- providers: the failures that a platform's client raises.
pub mod Exceptions
