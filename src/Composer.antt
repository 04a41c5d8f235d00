-- ===== src/Composer.antt =====
-- apps/composer: the statuses, the rows and the state machine of a post.
pub mod Status
pub mod PlatformPost
pub mod Rows
