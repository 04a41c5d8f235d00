-- ===== src/Members/Assignments.antt =====
-- `update_workspace_assignments` of apps/members/services.py: the workspaces of one member, with what
-- the caller may change of them.
pub mod Lookup
pub mod Authority
use ai_social_brightbean_stu.Common.{
  ℕ, Bool, true, false, not, ◌&&◌, ◌||◌, Option, none, some, List, [], ◌∷◌, ◌++◌, leb, ltb, ◌==◌,
  if◌then◌else◌, is_some, all,
}
use ai_social_brightbean_stu.Members.Roles.{
  WorkspaceRole, WorkspaceMembership, ws_role_level, same_role,
}
use ai_social_brightbean_stu.Members.Team.{
  Workspace, Team, workspace_membership, inviter_workspace_level, is_open_workspace_of,
}

-- An item of the request; a missing role is `viewer`.
pub record Assignment : Type 0 where
  pub workspace_id : ℕ
  pub role : Option WorkspaceRole

unfoldable pub requested_role : Option WorkspaceRole → WorkspaceRole
requested_role none = WorkspaceRole.viewer
requested_role (some role) = role

-- A `dict` from workspaces to roles.
abbrev pub Desired : Type 0
Desired = List (ℕ × WorkspaceRole)

unfoldable pub role_for : ℕ → Desired → Option WorkspaceRole
role_for w [] = none
role_for w ((k, role) ∷ rest) = let more = role_for w rest in if k == w then some role else more

unfoldable pub set_role : ℕ → WorkspaceRole → Desired → Desired
set_role w role [] = (w, role) ∷ []
set_role w role ((k, old) ∷ rest) =
    let more = set_role w role rest in if k == w then (k, role) ∷ rest else (k, old) ∷ more

-- Whether the inviter's level in the workspace covers a role; without an inviter all are covered.
unfoldable pub covers : ℕ → Team → Option ℕ → ℕ → WorkspaceRole → Bool
covers org t none w role = true
covers org t (some inviter) w role =
    leb (ws_role_level role) (inviter_workspace_level inviter org w t)

unfoldable pub is_grantable : ℕ → Team → Option ℕ → ℕ → WorkspaceRole → Bool
is_grantable org t inviter w role =
    is_open_workspace_of org w t.workspaces
    && not (ws_role_level role == 0)
    && covers org t inviter w role

-- The first loop; `none` is a `ValueError`.
unfoldable pub desired_of : ℕ → Team → Option ℕ → List Assignment → Desired → Option Desired
desired_of org t inviter [] desired = some desired
desired_of org t inviter (a ∷ rest) desired =
    elim (is_grantable org t inviter a.workspace_id (requested_role a.role)) [
      | false ↦ none
      | true ↦
          desired_of org t inviter rest (set_role a.workspace_id (requested_role a.role) desired)
    ]

-- A row of the user in an open workspace of the organization.
unfoldable pub is_current : ℕ → ℕ → List Workspace → WorkspaceMembership → Bool
is_current org user ws m = m.user == user && is_open_workspace_of org m.workspace ws

keeps_role : WorkspaceMembership → Option WorkspaceRole → Bool
keeps_role m none = false
keeps_role m (some role) = same_role role m.workspace_role

-- Whether the caller may do to a current row what the request asks for.
unfoldable pub may_change : ℕ → Team → Option ℕ → Desired → WorkspaceMembership → Bool
unfolding keeps_role
may_change org t inviter desired m =
    keeps_role m (role_for m.workspace desired) || covers org t inviter m.workspace m.workspace_role

assigned :
    WorkspaceMembership → Option WorkspaceRole → List WorkspaceMembership → List WorkspaceMembership
assigned m none rest = rest
assigned m (some role) rest = record m { workspace_role = role } ∷ rest

-- The removals and the changes of role.
unfoldable pub reassign :
    ℕ → ℕ → List Workspace → Desired → List WorkspaceMembership → List WorkspaceMembership
unfolding assigned
reassign org user ws desired [] = []
reassign org user ws desired (m ∷ ms) =
    let rest = reassign org user ws desired ms in
    if is_current org user ws m then assigned m (role_for m.workspace desired) rest else m ∷ rest

-- The new rows, for the desired workspaces in which the user has none.
unfoldable pub additions : ℕ → List WorkspaceMembership → Desired → List WorkspaceMembership
additions user rows [] = []
additions user rows ((w, role) ∷ rest) =
    let more = additions user rows rest in
    if is_some (workspace_membership user w rows)
    then more
    else record { user = user; workspace = w; workspace_role = role; custom_role = none } ∷ more

apply_desired : ℕ → Team → ℕ → Option ℕ → Option Desired → Option Team
apply_desired org t user inviter none = none
apply_desired org t user inviter (some desired) =
    if all (λ m. not (is_current org user t.workspaces m) || may_change org t inviter desired m)
      t.workspace_memberships
    then some (record t {
      workspace_memberships =
          reassign org user t.workspaces desired t.workspace_memberships
          ++ additions user t.workspace_memberships desired;
    })
    else none

-- `none` is the `ValueError`, raised before anything is written.
unfoldable pub update_workspace_assignments :
    ℕ → ℕ → List Assignment → Option ℕ → Team → Option Team
unfolding apply_desired
update_workspace_assignments org user assignments inviter t =
    apply_desired org t user inviter (desired_of org t inviter assignments [])
