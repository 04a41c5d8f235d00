-- ===== src/Approvals.antt =====
-- apps/approvals: the review decisions on posts and the reminders on stalled ones.
pub mod Desk
pub mod Turns
pub mod Services
pub mod Reminders
