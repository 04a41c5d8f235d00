-- ===== src/Members.antt =====
-- Organizations, workspaces and who may do what in them: apps/members.
pub mod Roles
pub mod Team
pub mod Assignments
pub mod Invitations
