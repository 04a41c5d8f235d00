-- ===== src/Inbox.antt =====
-- apps/inbox: the answers to what people write.
pub mod Replies
