-- ===== src/Publisher.antt =====
-- apps/publisher: the tables and the engine that publishes due posts.
pub mod RateLimit
pub mod Store
pub mod Failure
pub mod Publish
pub mod Cycle
pub mod Confirm
pub mod PostType
pub mod FirstComment
