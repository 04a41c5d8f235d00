-- ===== src/Members/Roles.antt =====
-- The roles of apps/members/models.py with their levels and permissions, and the gates of
-- apps/members/decorators.py.
use ai_social_brightbean_stu.Common.{
  ℕ, String, Bool, true, false, not, Option, none, some, ltb, ◌==◌, str_eq,
}

-- A role is a text column; `unknown` is a text that is none of the choices.
pub data OrgRole : Type 0 where
  owner admin member : OrgRole
  unknown : String → OrgRole

pub data WorkspaceRole : Type 0 where
  owner manager editor contributor client viewer : WorkspaceRole
  unknown : String → WorkspaceRole

-- `ORG_ROLE_LEVEL.get(role, 0)`
unfoldable pub org_role_level : OrgRole → ℕ
org_role_level OrgRole.owner = 3
org_role_level OrgRole.admin = 2
org_role_level OrgRole.member = 1
org_role_level (OrgRole.unknown _) = 0

-- `WS_ROLE_LEVEL.get(role, 0)`
unfoldable pub ws_role_level : WorkspaceRole → ℕ
ws_role_level WorkspaceRole.owner = 6
ws_role_level WorkspaceRole.manager = 5
ws_role_level WorkspaceRole.editor = 4
ws_role_level WorkspaceRole.contributor = 3
ws_role_level WorkspaceRole.client = 2
ws_role_level WorkspaceRole.viewer = 1
ws_role_level (WorkspaceRole.unknown _) = 0

abbrev pub is_org_owner : OrgRole → Bool
is_org_owner OrgRole.owner = true
is_org_owner _ = false

same_text : WorkspaceRole → String → Bool
same_text (WorkspaceRole.unknown s) t = str_eq s t
same_text _ t = false

-- Whether two role texts are equal.
unfoldable pub same_role : WorkspaceRole → WorkspaceRole → Bool
unfolding same_text
same_role r (WorkspaceRole.unknown t) = same_text r t
same_role r s = ws_role_level r == ws_role_level s

-- `PERMISSION_KEYS`
pub data Permission : Type 0 where
  create_posts edit_others_posts approve_posts publish_directly manage_social_accounts
        view_analytics use_inbox reply_from_inbox manage_workspace_settings upload_media edit_media
        delete_media manage_media :
      Permission

abbrev pub Permissions : Type 0
Permissions = Permission → Bool

-- `BUILTIN_ROLE_PERMISSIONS.get(role, {})`, where an absent key counts as false.
unfoldable pub builtin_role_permissions : WorkspaceRole → Permissions
builtin_role_permissions WorkspaceRole.owner _ = true
builtin_role_permissions WorkspaceRole.manager manage_workspace_settings = false
builtin_role_permissions WorkspaceRole.manager _ = true
builtin_role_permissions WorkspaceRole.editor approve_posts = false
builtin_role_permissions WorkspaceRole.editor publish_directly = false
builtin_role_permissions WorkspaceRole.editor manage_social_accounts = false
builtin_role_permissions WorkspaceRole.editor manage_workspace_settings = false
builtin_role_permissions WorkspaceRole.editor manage_media = false
builtin_role_permissions WorkspaceRole.editor _ = true
builtin_role_permissions WorkspaceRole.contributor create_posts = true
builtin_role_permissions WorkspaceRole.contributor upload_media = true
builtin_role_permissions WorkspaceRole.contributor edit_media = true
builtin_role_permissions WorkspaceRole.contributor _ = false
builtin_role_permissions WorkspaceRole.client approve_posts = true
builtin_role_permissions WorkspaceRole.client view_analytics = true
builtin_role_permissions WorkspaceRole.client _ = false
builtin_role_permissions WorkspaceRole.viewer view_analytics = true
builtin_role_permissions WorkspaceRole.viewer _ = false
builtin_role_permissions (WorkspaceRole.unknown _) _ = false

-- `ORG_PERMISSION_KEYS`
pub data OrgPermission : Type 0 where
  manage_intelligence_billing use_intelligence manage_api_keys : OrgPermission

-- `BUILTIN_ORG_PERMISSIONS`
builtin_org_permissions : OrgRole → OrgPermission → Bool
builtin_org_permissions OrgRole.owner _ = true
builtin_org_permissions OrgRole.admin _ = true
builtin_org_permissions OrgRole.member use_intelligence = true
builtin_org_permissions OrgRole.member _ = false
builtin_org_permissions (OrgRole.unknown _) _ = false

-- `custom_role` holds the permissions of the custom role, if there is one.
pub record WorkspaceMembership : Type 0 where
  pub user : ℕ
  pub workspace : ℕ
  pub workspace_role : WorkspaceRole
  pub custom_role : Option Permissions

pub record OrgMembership : Type 0 where
  pub user : ℕ
  pub organization : ℕ
  pub org_role : OrgRole

unfoldable pub effective_permissions : WorkspaceMembership → Permissions
effective_permissions m p = elim m.custom_role [
  | some own ↦ own p
  | none ↦ builtin_role_permissions m.workspace_role p
]

unfoldable pub has_org_permission : Option OrgMembership → OrgPermission → Bool
unfolding builtin_org_permissions
has_org_permission none key = false
has_org_permission (some m) key = builtin_org_permissions m.org_role key

-- Whether the gate of `require_org_role` opens.
unfoldable pub require_org_role : OrgRole → Option OrgMembership → Bool
require_org_role min_role none = false
require_org_role min_role (some m) = not (ltb (org_role_level m.org_role) (org_role_level min_role))

-- Whether the gate of `require_workspace_role` opens.
unfoldable pub require_workspace_role : WorkspaceRole → Option WorkspaceMembership → Bool
require_workspace_role min_role none = false
require_workspace_role min_role (some m) =
    not (ltb (ws_role_level m.workspace_role) (ws_role_level min_role))

-- Whether the gate of `require_permission` opens.
unfoldable pub require_permission : Permission → Option WorkspaceMembership → Bool
require_permission key none = false
require_permission key (some m) = effective_permissions m key
