-- ===== src/Members/Assignments/Lookup.antt =====
-- Which row a user has in a workspace after the rows have been changed.
use mathlib.Core.Path.{subst}
use ai_social_brightbean_stu.Common.{
  ℕ, ◌≡◌, refl, Bool, true, not, ◌&&◌, Option, none, some, List, [], ◌∷◌, ◌++◌, inl, inr, arith,
  ◌==◌, if◌then◌else◌, is_some, or_else, all, Bool-cases, eq_iff,
}
use ai_social_brightbean_stu.Members.Roles.{
  WorkspaceRole, WorkspaceMembership, ws_role_level, same_role,
}
use ai_social_brightbean_stu.Members.Team.{Workspace, workspace_membership, is_open_workspace_of}
use ai_social_brightbean_stu.Members.Assignments.{
  Desired, role_for, is_current, reassign, additions,
}

-- The row that a changed row becomes.
unfoldable pub changed :
    Option WorkspaceRole → Option WorkspaceMembership → Option WorkspaceMembership
changed role none = none
changed none (some m) = none
changed (some role) (some m) = some (record m { workspace_role = role })

-- The row that an assignment creates.
unfoldable pub added : ℕ → ℕ → Option WorkspaceRole → Option WorkspaceMembership
added user w none = none
added user w (some role) =
    some (record { user = user; workspace = w; workspace_role = role; custom_role = none })

pub membership-append :
    (user w : ℕ) (xs ys : List WorkspaceMembership)
    → workspace_membership user w (xs ++ ys)
      ≡ or_else (workspace_membership user w xs) (workspace_membership user w ys)
unfolding workspace_membership
membership-append user w [] ys = refl
membership-append user w (m ∷ ms) ys = ground (arith, membership-append user w ms ys)

pub membership-reassign :
    (org user other w : ℕ) (ws : List Workspace) (d : Desired) (rows : List WorkspaceMembership)
    → workspace_membership other w (reassign org user ws d rows) ≡ (
        if other == user && is_open_workspace_of org w ws
        then changed (role_for w d) (workspace_membership other w rows)
        else workspace_membership other w rows)
unfolding workspace_membership reassign is_current changed
membership-reassign org user other w ws d [] = ground arith
membership-reassign org user other w ws d (m ∷ rows) =
    ground (arith, membership-reassign org user other w ws d rows)

pub membership-additions :
    (user other w : ℕ) (rows : List WorkspaceMembership) (d : Desired)
    → workspace_membership other w (additions user rows d) ≡ (
        if other == user && not (is_some (workspace_membership user w rows))
        then added user w (role_for w d)
        else none)
unfolding workspace_membership additions role_for added
membership-additions user other w rows [] = ground arith
membership-additions user other w rows ((k, role) ∷ rest) =
    ground (arith, membership-additions user other w rows rest)

pub same_role_sound : (r s : WorkspaceRole) → same_role r s ≡ true → r ≡ s
unfolding same_role ws_role_level
same_role_sound (WorkspaceRole.unknown a) (WorkspaceRole.unknown b) h = ground (arith, eq_iff a b)
same_role_sound r s h = ground arith

pub found_facts :
    (user w : ℕ) (rows : List WorkspaceMembership) (p : WorkspaceMembership → Bool)
    (m : WorkspaceMembership)
    → workspace_membership user w rows ≡ some m
    → all p rows ≡ true
    → (m.user ≡ user) × (m.workspace ≡ w) × (p m ≡ true)
unfolding workspace_membership
found_facts user w [] p m h a = ground arith
found_facts user w (o ∷ rows) p m h a = elim (Bool-cases (o.user == user && o.workspace == w)) [
  | inl e ↦
      let same : o ≡ m = ground (arith, e, h) in
      subst (λ x. (x.user ≡ user) × (x.workspace ≡ w) × (p x ≡ true)) same
        (ground arith, ground arith, ground arith)
  | inr e ↦ found_facts user w rows p m (ground (arith, e, h)) (ground arith)
]
