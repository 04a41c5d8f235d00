-- ===== src/Members/Team/Owners.antt =====
-- An organization that has an owner keeps one, and nobody gives a role above their own.
use ai_social_brightbean_stu.Common.{
  ℕ, ◌≡◌, ◌≤◌, Bool, false, ◌&&◌, Option, some, List, [], ◌∷◌, ◌==◌, All, In,
}
use ai_social_brightbean_stu.Members.Roles.{OrgRole, OrgMembership}
use ai_social_brightbean_stu.Members.Team.{Team, owner_count, remove_member, update_member_org_role}

-- One row for each user and organization, as the table's constraint says.
unfoldable pub IsUnique : List OrgMembership → Type 0
IsUnique [] = Unit
IsUnique (m ∷ ms) =
    All (λ o. (o.user == m.user && o.organization == m.organization) ≡ false) ms × IsUnique ms

abbrev matches : OrgMembership → OrgMembership → Bool
matches m o = o.user == m.user && o.organization == m.organization

-- What the services do to the rows of one organization. `joins` is an accepted invitation or a new
-- organization: a row is added for a user who had none.
pub data Step (org : ℕ) (t : Team) (u : Team) : Type 0 where
  removes :
      (m : OrgMembership) (removed_by : ℕ)
      → In m t.org_memberships
      → remove_member org m removed_by t ≡ some u
      → Step org t u
  changes :
      (m : OrgMembership) (role : OrgRole) (caller : Option ℕ)
      → In m t.org_memberships
      → update_member_org_role org m role caller t ≡ some u
      → Step org t u
  joins :
      (m : OrgMembership)
      → All (λ o. matches m o ≡ false) t.org_memberships
      → u ≡ record t { org_memberships = m ∷ t.org_memberships }
      → Step org t u

pub data Reach (org : ℕ) (t : Team) : Team → Type 0 where
  here : Reach org t t
  next : {u v : Team} → Reach org t u → Step org u v → Reach org t v

-- The organization has an owner, and the table keeps its constraint.
pub record IsOwned (org : ℕ) (t : Team) : Type 0 where
  pub unique : IsUnique t.org_memberships
  pub owned : 1 ≤ owner_count org t.org_memberships

-- The two facts, about the rows alone.
abbrev Owned : ℕ → List OrgMembership → Type 0
Owned org ms = IsUnique ms × (1 ≤ owner_count org ms)
