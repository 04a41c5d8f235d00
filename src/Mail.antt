-- ===== src/Mail.antt =====
-- Outbound email: apps/common/mail.py.
pub mod Budget
