-- ===== src/ApiKeys/Keys/Scope.antt =====
-- What a key may do: what its issuer could grant, and what an edit may change.
use ai_social_brightbean_stu.Common.{
  ℕ, ◌≡◌, refl, true, Option, none, some, List, arith, if◌then◌else◌, Bool-cases, inl, inr,
}
use ai_social_brightbean_stu.Members.Roles.{
  Permission, Permissions, WorkspaceMembership, manage_api_keys, effective_permissions,
  has_org_permission,
}
use ai_social_brightbean_stu.Members.Team.{Team, org_membership, workspace_membership}
use ai_social_brightbean_stu.ApiKeys.Keys.{
  SocialAccount, KeyWorkspace, ApiKey, may_allow, grantable, update_api_key,
}

-- The user may manage the workspace's keys, and may do there what `held` says.
pub record IsManager (ws : KeyWorkspace) (user : ℕ) (t : Team) (held : Permissions) : Type 0 where
  pub manages :
      has_org_permission (org_membership user ws.organization t.org_memberships) manage_api_keys
      ≡ true
  pub belongs :
      (m : WorkspaceMembership) × (workspace_membership user ws.id t.workspace_memberships ≡ some m)
      × (held ≡ effective_permissions m)

grantable_sound :
    (ws : KeyWorkspace) (user : ℕ) (t : Team) (held : Permissions)
    → grantable ws user t ≡ some held
    → IsManager ws user t held
unfolding grantable
grantable_sound ws user t held h =
    elim (Bool-cases (
      has_org_permission (org_membership user ws.organization t.org_memberships) manage_api_keys)) [
        | inr low ↦ absurd (ground (arith, low, h))
        | inl manages ↦ row (workspace_membership user ws.id t.workspace_memberships) refl manages
      ]
  where
    row :
        (r : Option WorkspaceMembership)
        → workspace_membership user ws.id t.workspace_memberships ≡ r
        → has_org_permission (org_membership user ws.organization t.org_memberships) manage_api_keys
          ≡ true
        → IsManager ws user t held
    row none e m = absurd (ground (arith, e, m, h))
    row (some m) e manages = record {
      manages = manages;
      belongs = (m, e, ground (arith, e, manages, h));
    }

-- An edit changes a permission only where the editor holds it, to what was asked for; what the key
-- has beyond the editor's own permissions it keeps. Workspace, issuer and token stay, and only a
-- manager of the organization's keys who belongs to the workspace edits at all.
pub update_scoped :
    (k new : ApiKey) (editor : ℕ) (requested : Permissions) (accounts : List SocialAccount)
    (expires_at : Option ℕ) (t : Team)
    → update_api_key k editor requested accounts expires_at t ≡ some new
    → (held : Permissions) × IsManager k.workspace editor t held
      × ((p : Permission) → new.permissions p ≡ (if held p then requested p else k.permissions p))
      × (may_allow k.workspace accounts ≡ true)
      × (new.workspace ≡ k.workspace)
      × (new.issued_by ≡ k.issued_by)
      × (new.lookup_prefix ≡ k.lookup_prefix)
      × (new.token_hash ≡ k.token_hash)
      × (new.revoked_at ≡ k.revoked_at)
unfolding update_api_key
update_scoped k new editor requested accounts expires_at t e =
    edited (grantable k.workspace editor t) refl
  where
    edited :
        (r : Option Permissions)
        → grantable k.workspace editor t ≡ r
        → (held : Permissions) × IsManager k.workspace editor t held
          × ((p : Permission)
              → new.permissions p ≡ (if held p then requested p else k.permissions p))
          × (may_allow k.workspace accounts ≡ true)
          × (new.workspace ≡ k.workspace)
          × (new.issued_by ≡ k.issued_by)
          × (new.lookup_prefix ≡ k.lookup_prefix)
          × (new.token_hash ≡ k.token_hash)
          × (new.revoked_at ≡ k.revoked_at)
    edited none g = absurd (ground (arith, g, e))
    edited (some held) g = elim (Bool-cases (may_allow k.workspace accounts)) [
      | inr foreign ↦ absurd (ground (arith, g, foreign, e))
      | inl own ↦ (
        held,
        grantable_sound k.workspace editor t held g,
        (λ p. ground (arith, g, own, e)),
        own,
        ground (arith, g, own, e),
        ground (arith, g, own, e),
        ground (arith, g, own, e),
        ground (arith, g, own, e),
        ground (arith, g, own, e),
      )
    ]
