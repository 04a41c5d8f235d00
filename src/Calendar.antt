-- ===== src/Calendar.antt =====
-- apps/calendar: the posting slots of a channel, and the queue that fills them.
pub mod Slots
pub mod Queue
pub mod Reorder
pub mod Removal
pub mod Priority
pub mod Recurrence
