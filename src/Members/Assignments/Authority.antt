-- ===== src/Members/Assignments/Authority.antt =====
-- What a change of assignments may change, under the level of the one who makes it.
use mathlib.Core.Path.{subst}
use ai_social_brightbean_stu.Common.{
  ℕ, ◌≡◌, ◌≤◌, refl, true, false, not, ◌&&◌, ◌||◌, Option, none, some, List, [], ◌∷◌, ◌++◌, ◌⊎◌,
  inl, inr, arith, leb, ◌==◌, if◌then◌else◌, is_some, or_else, all, Bool-cases, ==_refl, sym, ap,
  ◌∙◌,
}
use ai_social_brightbean_stu.Members.Roles.{
  WorkspaceRole, WorkspaceMembership, ws_role_level, same_role,
}
use ai_social_brightbean_stu.Members.Team.{
  Team, workspace_membership, inviter_workspace_level, is_open_workspace_of, ws_level,
}
use ai_social_brightbean_stu.Members.Assignments.{
  Assignment, Desired, requested_role, role_for, set_role, covers, is_grantable, desired_of,
  is_current, may_change, keeps_role, reassign, additions, update_workspace_assignments,
  apply_desired,
}
use ai_social_brightbean_stu.Members.Assignments.Lookup.{
  changed, added, membership-append, membership-reassign, membership-additions, same_role_sound,
  found_facts,
}

-- Every role of the dict may be granted.
Grantable : ℕ → Team → Option ℕ → Desired → Type 0
Grantable org t inviter [] = Unit
Grantable org t inviter ((w, role) ∷ rest) =
    (is_grantable org t inviter w role ≡ true) × Grantable org t inviter rest

module _ (org : ℕ) (t : Team) (inviter : Option ℕ) where
  set_role-Grantable :
      (w : ℕ) (role : WorkspaceRole) (d : Desired)
      → is_grantable org t inviter w role ≡ true
      → Grantable org t inviter d
      → Grantable org t inviter (set_role w role d)
  unfolding Grantable set_role
  set_role-Grantable w role [] h g = (h, tt)
  set_role-Grantable w role ((k, old) ∷ rest) h g = elim (Bool-cases (k == w)) [
    | inl e ↦ rw (e, Grantable) (ground (arith, e, h), g.1)
    | inr e ↦ rw (e, Grantable) (g.0, set_role-Grantable w role rest h g.1)
  ]

  desired_of-Grantable :
      (items : List Assignment) (d d' : Desired)
      → Grantable org t inviter d
      → desired_of org t inviter items d ≡ some d'
      → Grantable org t inviter d'
  unfolding desired_of
  desired_of-Grantable [] d d' g e = subst (Grantable org t inviter) (ground arith) g
  desired_of-Grantable (a ∷ items) d d' g e =
      elim (Bool-cases (is_grantable org t inviter a.workspace_id (requested_role a.role))) [
        | inl ok ↦
            desired_of-Grantable items _ d' (set_role-Grantable a.workspace_id _ d ok g)
              (rw (ok, desired_of) at e)
        | inr bad ↦ absurd (ground (arith, bad, e))
      ]

  role_for-Grantable :
      (w : ℕ) (d : Desired) (role : WorkspaceRole)
      → Grantable org t inviter d
      → role_for w d ≡ some role
      → is_grantable org t inviter w role ≡ true
  unfolding role_for Grantable
  role_for-Grantable w [] role g e = ground arith
  role_for-Grantable w ((k, old) ∷ rest) role g e =
      ground (arith, role_for-Grantable w rest role g.1)

-- A row is as it was, or it is the user's in an open workspace and neither its old role nor its new
-- one is above the level.
abbrev pub Bounded : ℕ → ℕ → ℕ → ℕ → Team → Team → ℕ → Type 0
Bounded org user level w t u other =
    (workspace_membership other w u.workspace_memberships
      ≡ workspace_membership other w t.workspace_memberships)
    ⊎ ((other ≡ user)
        × (is_open_workspace_of org w t.workspaces ≡ true)
        × (ws_level (workspace_membership other w t.workspace_memberships) ≤ level)
        × (ws_level (workspace_membership other w u.workspace_memberships) ≤ level))

-- What a successful call has checked and written.
record Applied (org user : ℕ) (inviter : Option ℕ) (t : Team) (d : Desired) (u : Team)
    : Type 0 where
  grantable : Grantable org t inviter d
  checked :
      all
        (λ m. not (is_current org user t.workspaces m) || may_change org t inviter d m)
        t.workspace_memberships
      ≡ true
  written :
      u.workspace_memberships
      ≡ reassign org user t.workspaces d t.workspace_memberships
        ++ additions user t.workspace_memberships d

applied :
    (org user : ℕ) (items : List Assignment) (inviter : Option ℕ) (t u : Team)
    → update_workspace_assignments org user items inviter t ≡ some u
    → (d : Desired) × Applied org user inviter t d u
unfolding update_workspace_assignments
applied org user items inviter t u h = found (desired_of org t inviter items []) refl h
  where
    found :
        (r : Option Desired)
        → desired_of org t inviter items [] ≡ r
        → apply_desired org t user inviter r ≡ some u
        → (d : Desired) × Applied org user inviter t d u
    found none e h = absurd (ground (arith, h))
    found (some d) e h = (
      d,
      record {
        grantable = desired_of-Grantable org t inviter items [] d (unfold Grantable in tt) e;
        checked = ground (arith, h);
        written = ground (arith, h);
      },
    )

kept :
    (m : WorkspaceMembership) (role : Option WorkspaceRole) (level : ℕ)
    → (keeps_role m role || leb (ws_role_level m.workspace_role) level) ≡ true
    → (role ≡ some m.workspace_role) ⊎ (ws_role_level m.workspace_role ≤ level)
unfolding keeps_role
kept m none level h = inr (ground arith)
kept m (some role) level h = elim (Bool-cases (same_role role m.workspace_role)) [
  | inl e ↦ inl (ap some (same_role_sound role m.workspace_role e))
  | inr e ↦ inr (ground (arith, e, h))
]

module _ (org user i w : ℕ) (t u : Team) (d : Desired) (a : Applied org user (some i) t d u) where
  grant_level :
      (role : WorkspaceRole)
      → role_for w d ≡ some role
      → (ws_role_level role ≤ inviter_workspace_level i org w t)
        × (is_open_workspace_of org w t.workspaces ≡ true)
  unfolding is_grantable covers
  grant_level role e = ground (arith, role_for-Grantable org t (some i) w d role a.grantable e)

  after_lookup :
      (other : ℕ)
      → workspace_membership other w u.workspace_memberships
        ≡ or_else
            (if other == user && is_open_workspace_of org w t.workspaces
              then changed (role_for w d) (workspace_membership other w t.workspace_memberships)
              else workspace_membership other w t.workspace_memberships)
            (if other == user && not (is_some (workspace_membership user w t.workspace_memberships))
              then added user w (role_for w d)
              else none)
  after_lookup other =
      ap (workspace_membership other w) a.written
      ∙ membership-append other w (reassign org user t.workspaces d t.workspace_memberships)
          (additions user t.workspace_memberships d)
      ∙ rw
          (
            membership-reassign org user other w t.workspaces d t.workspace_memberships,
            membership-additions user other w t.workspace_memberships d,
          )
          refl

  checked_row :
      (m : WorkspaceMembership)
      → workspace_membership user w t.workspace_memberships ≡ some m
      → is_open_workspace_of org w t.workspaces ≡ true
      → (role_for w d ≡ some m.workspace_role)
        ⊎ (ws_role_level m.workspace_role ≤ inviter_workspace_level i org w t)
  unfolding is_current may_change covers
  checked_row m found open_ =
      let (mu, mw, c) = found_facts user w t.workspace_memberships _ m found a.checked in
      let here : (keeps_role m (role_for w d) || covers org t (some i) w m.workspace_role) ≡ true =
        subst
          (λ x. (keeps_role m (role_for x d) || covers org t (some i) x m.workspace_role) ≡ true) mw
          (ground (arith, mu, mw, c, open_)) in
      kept m (role_for w d) (inviter_workspace_level i org w t) here

  -- The user's own row in an open workspace, by what was there and what is wanted.
  own_row :
      is_open_workspace_of org w t.workspaces ≡ true
      → (before : Option WorkspaceMembership) (role : Option WorkspaceRole)
      → workspace_membership user w t.workspace_memberships ≡ before
      → role_for w d ≡ role
      → Bounded org user (inviter_workspace_level i org w t) w t u user
  unfolding changed added ws_level
  own_row open_ none none b r = inl (ground (arith, after_lookup user, ==_refl user, open_, b, r))
  own_row open_ none (some role) b r = inr (
    refl,
    open_,
    ground (arith, b),
    ground (arith, after_lookup user, ==_refl user, open_, b, r, grant_level role r),
  )
  own_row open_ (some m) none b r = elim (checked_row m b open_) [
    | inl e ↦ absurd (ground (arith, e, r))
    | inr low ↦ inr (
      refl,
      open_,
      ground (arith, b, low),
      ground (arith, after_lookup user, ==_refl user, open_, b, r),
    )
  ]
  own_row open_ (some m) (some role) b r = elim (checked_row m b open_) [
    | inl e ↦ inl (ground (arith, after_lookup user, ==_refl user, open_, b, r, e))
    | inr low ↦ inr (
      refl,
      open_,
      ground (arith, b, low),
      ground (arith, after_lookup user, ==_refl user, open_, b, r, grant_level role r),
    )
  ]

  -- A closed or foreign workspace is never among the desired ones.
  not_wanted : is_open_workspace_of org w t.workspaces ≡ false → role_for w d ≡ none
  not_wanted shut = elim_role (role_for w d) refl
    where
      elim_role : (r : Option WorkspaceRole) → role_for w d ≡ r → r ≡ none
      elim_role none e = refl
      elim_role (some role) e = absurd (ground (arith, grant_level role e))

  bounded : (other : ℕ) → Bounded org user (inviter_workspace_level i org w t) w t u other
  unfolding changed added
  bounded other = elim (Bool-cases (other == user)) [
    | inr apart ↦ inl (ground (arith, after_lookup other, apart))
    | inl same ↦ elim (Bool-cases (is_open_workspace_of org w t.workspaces)) [
      | inr shut ↦ inl (ground (arith, after_lookup other, not_wanted shut, shut, same))
      | inl open_ ↦
          subst (Bounded org user (inviter_workspace_level i org w t) w t u)
            (sym (ground (arith, same)))
            (own_row open_ (workspace_membership user w t.workspace_memberships) (role_for w d) refl
              refl)
    ]
  ]

-- A successful change of assignments by an inviter touches no row of another user, none outside the
-- organization's open workspaces, and no row whose role was or becomes higher than the inviter's own
-- in that workspace, whether it adds, changes or removes the row.
pub assignments-Bounded :
    (org user i w other : ℕ) (items : List Assignment) (t u : Team)
    → update_workspace_assignments org user items (some i) t ≡ some u
    → Bounded org user (inviter_workspace_level i org w t) w t u other
assignments-Bounded org user i w other items t u h =
    let (d, a) = applied org user items (some i) t u h in bounded org user i w t u d a other
