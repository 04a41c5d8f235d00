-- ===== src/SocialAccounts.antt =====
-- apps/social_accounts: what a user is told of a failure.
pub mod ErrorMessages
