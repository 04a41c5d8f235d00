-- ===== src/Members/Team.antt =====
-- The tables of apps/members that its services read and write, the authority of a caller, and the
-- operations of apps/members/services.py on members. A refused call leaves the tables as they are.
pub mod Owners
use ai_social_brightbean_stu.Common.{
  ℕ, ◌+◌, Bool, true, false, not, ◌&&◌, ◌||◌, Option, none, some, List, [], ◌∷◌, map, ltb, leb,
  ◌==◌, if◌then◌else◌, any, filter, length,
}
use ai_social_brightbean_stu.Members.Roles.{
  OrgRole, WorkspaceRole, WorkspaceMembership, OrgMembership, org_role_level, ws_role_level,
  is_org_owner,
}

pub record Workspace : Type 0 where
  pub id : ℕ
  pub organization : ℕ
  pub is_archived : Bool

pub record Team : Type 0 where
  pub org_memberships : List OrgMembership
  pub workspace_memberships : List WorkspaceMembership
  pub workspaces : List Workspace

-- `filter(user=user, organization=org).first()`
unfoldable pub org_membership : ℕ → ℕ → List OrgMembership → Option OrgMembership
org_membership user org [] = none
org_membership user org (m ∷ ms) =
    let rest = org_membership user org ms in
    if m.user == user && m.organization == org then some m else rest

-- `filter(user=user, workspace=workspace).first()`
unfoldable pub workspace_membership : ℕ → ℕ → List WorkspaceMembership → Option WorkspaceMembership
workspace_membership user workspace [] = none
workspace_membership user workspace (m ∷ ms) =
    let rest = workspace_membership user workspace ms in
    if m.user == user && m.workspace == workspace then some m else rest

org_level : Option OrgMembership → ℕ
org_level none = 0
org_level (some m) = org_role_level m.org_role

unfoldable pub ws_level : Option WorkspaceMembership → ℕ
ws_level none = 0
ws_level (some m) = ws_role_level m.workspace_role

-- `_inviter_org_level`
unfoldable pub inviter_org_level : ℕ → ℕ → Team → ℕ
unfolding org_level
inviter_org_level inviter org t = org_level (org_membership inviter org t.org_memberships)

-- `_inviter_workspace_level`
unfoldable pub inviter_workspace_level : ℕ → ℕ → ℕ → Team → ℕ
unfolding ws_level
inviter_workspace_level inviter org workspace t =
    if leb (org_role_level OrgRole.owner) (inviter_org_level inviter org t)
    then ws_role_level WorkspaceRole.owner
    else ws_level (workspace_membership inviter workspace t.workspace_memberships)

-- How many owners the organization has.
unfoldable pub owner_count : ℕ → List OrgMembership → ℕ
owner_count org ms = length (filter (λ m. m.organization == org && is_org_owner m.org_role) ms)

-- The ids of the organization's workspaces.
unfoldable pub is_workspace_of : ℕ → ℕ → List Workspace → Bool
is_workspace_of org workspace ws = any (λ w. w.id == workspace && w.organization == org) ws

unfoldable pub is_open_workspace_of : ℕ → ℕ → List Workspace → Bool
is_open_workspace_of org workspace ws =
    any (λ w. w.id == workspace && w.organization == org && not w.is_archived) ws

is_row_of : OrgMembership → OrgMembership → Bool
is_row_of m other = other.user == m.user && other.organization == m.organization

-- The last owner of an organization is neither removed nor given another role.
unfoldable pub is_last_owner : ℕ → OrgMembership → Team → Bool
is_last_owner org m t = is_org_owner m.org_role && leb (owner_count org t.org_memberships) 1

-- `remove_member`; `none` is the `ValueError`.
unfoldable pub remove_member : ℕ → OrgMembership → ℕ → Team → Option Team
unfolding is_row_of
remove_member org m removed_by t =
    if m.user == removed_by || is_last_owner org m t
    then none
    else some (record t {
      org_memberships = filter (λ o. not (is_row_of m o)) t.org_memberships;
      workspace_memberships =
          filter (λ w. not (w.user == m.user && is_workspace_of org w.workspace t.workspaces))
            t.workspace_memberships;
    })

-- Whether the caller may not give the role; without a caller all may be given.
unfoldable pub outranked : ℕ → OrgMembership → OrgRole → Option ℕ → Team → Bool
outranked org m new_role none t = false
outranked org m new_role (some caller) t =
    let level = inviter_org_level caller org t in
    ltb level (org_role_level m.org_role)
    || (leb (org_role_level OrgRole.admin) (org_role_level new_role)
        && leb level (org_role_level new_role))

-- `update_member_org_role`; `none` is the `ValueError`.
unfoldable pub update_member_org_role : ℕ → OrgMembership → OrgRole → Option ℕ → Team → Option Team
unfolding is_row_of
update_member_org_role org m new_role caller t =
    if is_org_owner new_role
      || org_role_level new_role == 0
      || outranked org m new_role caller t
      || is_last_owner org m t
    then none
    else some (record t {
      org_memberships =
          map (λ o. if is_row_of m o then record o { org_role = new_role } else o)
            t.org_memberships;
    })
