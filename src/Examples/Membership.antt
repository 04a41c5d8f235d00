-- ===== src/Examples/Membership.antt =====
-- A small organization: its owner, an administrator who manages one workspace, and a member.
use ai_social_brightbean_stu.Common.{
  ℕ, ◌+◌, ◌*◌, ◌/◌, ◌≡◌, ◌≤◌, refl, Bool, true, false, none, some, List, [], ◌∷◌, arith, length,
  IsSpaced, ◌==◌,
}
use ai_social_brightbean_stu.Members.Roles.{
  OrgRole, WorkspaceRole, OrgMembership, WorkspaceMembership, org_role_level, ws_role_level,
  same_role,
}
use ai_social_brightbean_stu.Members.Team.{
  Team, workspace_membership, org_membership, inviter_workspace_level, inviter_org_level,
  is_open_workspace_of, owner_count,
}
use ai_social_brightbean_stu.Members.Team.Owners.{IsUnique, IsOwned}
use ai_social_brightbean_stu.Members.Assignments.{
  Assignment, update_workspace_assignments, desired_of, is_grantable, set_role, covers,
  requested_role, may_change, is_current, role_for, reassign, additions,
}
use ai_social_brightbean_stu.Members.Assignments.Authority.{Bounded, assignments-Bounded}
use ai_social_brightbean_stu.Members.Invitations.{
  Invitation, InviteSettings, Desk, find_invitation, invite_expiry,
}
use ai_social_brightbean_stu.Members.Invitations.Sends.{mailed, mails_bounded}
use ai_social_brightbean_stu.Mail.Budget.{Message, MailSettings, Environment, global_day, count_of}
use ai_social_brightbean_stu.Mail.Budget.Caps.{sent, sends_bounded}

abbrev owner_row : OrgMembership
owner_row = record { user = 1; organization = 5; org_role = OrgRole.owner }

abbrev admin_row : OrgMembership
admin_row = record { user = 2; organization = 5; org_role = OrgRole.admin }

abbrev manager_row : WorkspaceMembership
manager_row = record {
  user = 2;
  workspace = 50;
  workspace_role = WorkspaceRole.manager;
  custom_role = none;
}

abbrev editor_row : WorkspaceMembership
editor_row = record {
  user = 3;
  workspace = 50;
  workspace_role = WorkspaceRole.editor;
  custom_role = none;
}

abbrev pub team : Team
team = record {
  org_memberships = owner_row ∷ admin_row ∷ [];
  workspace_memberships = manager_row ∷ editor_row ∷ [];
  workspaces = record { id = 50; organization = 5; is_archived = false } ∷ [];
}

-- The administrator is removed.
abbrev smaller : Team
smaller = record team { org_memberships = owner_row ∷ []; workspace_memberships = editor_row ∷ [] }

owned : IsOwned 5 team
unfolding IsUnique owner_count
owned = record { unique = ((refl, tt), (tt, tt)); owned = omega arith }

-- The manager makes the editor a contributor.
abbrev items : List Assignment
items = record { workspace_id = 50; role = some WorkspaceRole.contributor } ∷ []

abbrev demoted : Team
demoted = record team {
  workspace_memberships =
      manager_row ∷ record editor_row { workspace_role = WorkspaceRole.contributor } ∷ [];
}

demotes : update_workspace_assignments 5 3 items (some 2) team ≡ some demoted
unfolding update_workspace_assignments desired_of is_grantable set_role covers requested_role
    may_change is_current role_for reassign additions inviter_workspace_level inviter_org_level
    org_membership workspace_membership is_open_workspace_of org_role_level ws_role_level same_role
demotes = refl

assignments-Bounded_example : Bounded 5 3 (inviter_workspace_level 2 5 50 team) 50 team demoted 3
assignments-Bounded_example = assignments-Bounded 5 3 2 50 3 items team demoted demotes

-- Three mails in an hour at most, at least ten seconds apart.
abbrev settings : InviteSettings
settings = record {
  max_sends = 3;
  cooldown = 10;
  max_per_org_per_day = some 25;
  day_start = λ t. t / 1000 * 1000;
  reachable = true;
}

abbrev invitation : Invitation
invitation = record {
  id = 8;
  organization = 5;
  email = 77;
  org_role = OrgRole.member;
  workspace_assignments = items;
  token = 900;
  expires_at = invite_expiry;
  accepted_at = none;
  created_at = 0;
  send_count = 1;
  last_sent_at = some 0;
}

abbrev desk : Desk
desk = record { team = team; invitations = invitation ∷ []; counters = []; email_of = λ u. u }

abbrev attempts : List (ℕ × Bool)
attempts = (5, true) ∷ (20, false) ∷ (21, true) ∷ (40, true) ∷ (60, true) ∷ []

mails_bounded_example :
    (1 + length (mailed settings 8 attempts (invitation ∷ [])) ≤ 3)
    × IsSpaced 10 (some 0) (mailed settings 8 attempts (invitation ∷ []))
mails_bounded_example =
    mails_bounded settings 8 attempts (invitation ∷ []) invitation (unfold find_invitation in refl)
      (omega arith)

-- Two mails a day.
abbrev mail_settings : MailSettings
mail_settings = record {
  sending_enabled = true;
  hourly = some 6;
  daily = some 20;
  global_limit = some 2;
}

abbrev environment : Environment
environment = record {
  hour_start = λ t. t / 10 * 10;
  day_start = λ t. t / 1000 * 1000;
  recipient_key = λ a. a;
  suppressed = λ a. a == 13;
  reachable = true;
}

abbrev note : Message
note = record { addressed = 77 ∷ []; recipients = 77 ∷ []; is_transactional = false }

abbrev day_of_mail : List (ℕ × Message)
day_of_mail = (1, note) ∷ (2, record note { is_transactional = true }) ∷ (900, note) ∷ []

sends_bounded_example :
    sent environment mail_settings day_of_mail [] + count_of global_day 0 0 [] ≤ 2
sends_bounded_example =
    sends_bounded environment mail_settings 0 2 day_of_mail [] refl refl (omega arith)
      (unfold count_of in omega arith)
