-- ===== src/Members/Invitations.antt =====
-- Invitations: `Invitation` of apps/members/models.py and the functions of
-- apps/members/services.py on it. A mail address is its text in lower case without outer blanks, as
-- `create_invitation` and the caller's checks compare it; sending a mail is an input.
pub mod Sends
use ai_social_brightbean_stu.Common.{
  ℕ, ◌+◌, ◌-◌, ◌*◌, Bool, true, false, not, ◌&&◌, ◌||◌, Option, none, some, List, [], ◌∷◌, ltb, leb,
  ◌==◌, if◌then◌else◌, any, is_some, gt_some,
}
use ai_social_brightbean_stu.Providers.Exceptions.{second}
use ai_social_brightbean_stu.Members.Roles.{
  OrgRole, WorkspaceRole, OrgMembership, WorkspaceMembership, org_role_level, is_org_owner,
}
use ai_social_brightbean_stu.Members.Team.{
  Team, org_membership, workspace_membership, inviter_org_level,
}
use ai_social_brightbean_stu.Members.Assignments.{Assignment, requested_role, is_grantable}
use ai_social_brightbean_stu.Mail.Budget.{Counters, invite_org_day, reserve_budget}

pub record Invitation : Type 0 where
  pub id : ℕ
  pub organization : ℕ
  pub email : ℕ
  pub org_role : OrgRole
  pub workspace_assignments : List Assignment
  pub token : ℕ
  pub expires_at : ℕ
  pub accepted_at : Option ℕ
  pub created_at : ℕ
  pub send_count : ℕ
  pub last_sent_at : Option ℕ

unfoldable pub is_expired : ℕ → Invitation → Bool
is_expired now inv = ltb inv.expires_at now

unfoldable pub is_accepted : Invitation → Bool
is_accepted inv = is_some inv.accepted_at

-- The settings of the mail that a caller may not exceed; `day_start` is midnight of an instant.
pub record InviteSettings : Type 0 where
  pub max_sends : ℕ
  pub cooldown : ℕ
  pub max_per_org_per_day : Option ℕ
  pub day_start : ℕ → ℕ
  pub reachable : Bool

-- `INVITE_EXPIRY_DAYS`
abbrev pub invite_expiry : ℕ
invite_expiry = 7 * 24 * 3600 * second

-- The tables that the functions write, and the users' addresses.
pub record Desk : Type 0 where
  pub team : Team
  pub invitations : List Invitation
  pub counters : Counters
  pub email_of : ℕ → ℕ

-- `get(pk=key)`
unfoldable pub find_invitation : ℕ → List Invitation → Option Invitation
find_invitation key [] = none
find_invitation key (i ∷ is) =
    let rest = find_invitation key is in if i.id == key then some i else rest

unfoldable pub update_invitation :
    ℕ → (Invitation → Bool) → (Invitation → Invitation) → List Invitation → List Invitation
update_invitation key test change [] = []
update_invitation key test change (i ∷ is) =
    (if i.id == key && test i then change i else i) ∷ update_invitation key test change is

-- The cooldown is over, or nothing was sent.
unfoldable pub is_cool : ℕ → ℕ → Option ℕ → Bool
is_cool now cooldown none = true
is_cool now cooldown (some last) = leb (last + cooldown) now

-- Whether the conditions of the UPDATE in `_reserve_invite_send` hold of a row.
unfoldable pub has_slot : ℕ → InviteSettings → Invitation → Bool
has_slot now s i = ltb i.send_count s.max_sends && is_cool now s.cooldown i.last_sent_at

abbrev taken : ℕ → Invitation → Invitation
taken now i = record i { send_count = i.send_count + 1; last_sent_at = some now }

abbrev given_back : Option ℕ → Invitation → Invitation
given_back previous i = record i { send_count = i.send_count - 1; last_sent_at = previous }

-- `_send_invite_email` for the object `inv` of the caller: the slot is reserved, and released if the
-- mail did not go out.
unfoldable pub send_invite_email :
    ℕ → InviteSettings → Bool → Invitation → List Invitation → Bool × List Invitation
send_invite_email now s delivered inv rows = elim (find_invitation inv.id rows) [
  | none ↦ (false, rows)
  | some row ↦ elim (has_slot now s row) [
    | false ↦ (false, rows)
    | true ↦
        let reserved = update_invitation inv.id (has_slot now s) (taken now) rows in
        if delivered then (true, reserved) else (
          false,
          update_invitation inv.id (λ i. ltb 0 i.send_count) (given_back inv.last_sent_at) reserved,
        )
  ]
]

-- `_check_org_invite_budget`
unfoldable pub check_org_invite_budget : ℕ → InviteSettings → ℕ → Counters → Bool × Counters
check_org_invite_budget now s org cs =
    reserve_budget s.reachable invite_org_day org (s.day_start now) s.max_per_org_per_day false cs

-- The latest invitation of the address that is not accepted and at most a week old.
latest : Option Invitation → Option Invitation → Option Invitation
latest none best = best
latest (some i) none = some i
latest (some i) (some best) = if ltb i.created_at best.created_at then some best else some i

unfoldable pub recent_invitation : ℕ → ℕ → ℕ → List Invitation → Option Invitation
unfolding latest
recent_invitation now org email [] = none
recent_invitation now org email (i ∷ is) =
    let rest = recent_invitation now org email is in
    if i.organization == org
      && i.email == email
      && not (is_accepted i)
      && leb now (i.created_at + invite_expiry)
    then latest (some i) rest
    else rest

sends_of : Option Invitation → ℕ
sends_of none = 0
sends_of (some i) = i.send_count

-- `_recent_send_count`
unfoldable pub recent_send_count : ℕ → ℕ → ℕ → List Invitation → ℕ
unfolding sends_of
recent_send_count now org email is = sends_of (recent_invitation now org email is)

unfoldable pub is_pending : ℕ → ℕ → ℕ → Invitation → Bool
is_pending now org email i =
    i.organization == org && i.email == email && not (is_accepted i) && ltb now i.expires_at

-- Whether the address belongs to a member.
unfoldable pub is_member : ℕ → ℕ → Desk → Bool
is_member org email d =
    any (λ m. m.organization == org && d.email_of m.user == email) d.team.org_memberships

-- Whether the role may be offered by the inviter.
unfoldable pub may_offer : ℕ → ℕ → OrgRole → Team → Bool
may_offer org inviter role t =
    not (is_org_owner role)
    && not (org_role_level role == 0)
    && not (
        leb (org_role_level OrgRole.admin) (org_role_level role)
        && leb (inviter_org_level inviter org t) (org_role_level role))

all_grantable : ℕ → ℕ → Team → List Assignment → Bool
all_grantable org inviter t [] = true
all_grantable org inviter t (a ∷ rest) =
    is_grantable org t (some inviter) a.workspace_id (requested_role a.role)
    && all_grantable org inviter t rest

-- The checks of `create_invitation` before the organization's budget.
unfoldable pub may_invite : ℕ → InviteSettings → ℕ → ℕ → OrgRole → List Assignment → ℕ → Desk → Bool
unfolding all_grantable
may_invite now s org email role assignments inviter d =
    not (is_member org email d)
    && not (any (is_pending now org email) d.invitations)
    && may_offer org inviter role d.team
    && all_grantable org inviter d.team assignments
    && ltb (recent_send_count now org email d.invitations) s.max_sends

-- `create_invitation` with the new row's id and token; the first part is `false` for the `ValueError`.
unfoldable pub create_invitation :
    ℕ → InviteSettings → Bool → ℕ → ℕ → ℕ → ℕ → OrgRole → List Assignment → ℕ → Desk → Bool × Desk
create_invitation now s delivered id token org email role assignments inviter d =
    elim (may_invite now s org email role assignments inviter d) [
      | false ↦ (false, d)
      | true ↦
          let (left, counters) = check_org_invite_budget now s org d.counters in
          elim left [
            | false ↦ (false, record d { counters = counters })
            | true ↦
                let row : Invitation = record {
                  id = id;
                  organization = org;
                  email = email;
                  org_role = role;
                  workspace_assignments = assignments;
                  token = token;
                  expires_at = now + invite_expiry;
                  accepted_at = none;
                  created_at = now;
                  send_count = recent_send_count now org email d.invitations;
                  last_sent_at = none;
                } in
                (
                  true,
                  record d {
                    counters = counters;
                    invitations = (send_invite_email now s delivered row (row ∷ d.invitations)).1;
                  },
                )
          ]
    ]

-- `resend_invitation` of the row as it was loaded.
unfoldable pub resend_invitation : ℕ → InviteSettings → Bool → ℕ → Invitation → Desk → Bool × Desk
resend_invitation now s delivered token inv d =
    if is_accepted inv || not (has_slot now s inv)
    then (false, d)
    else (let (left, counters) = check_org_invite_budget now s inv.organization d.counters in
        elim left [
          | false ↦ (false, record d { counters = counters })
          | true ↦
              let renewed =
                update_invitation inv.id (λ i. true)
                  (λ i. record i { token = token; expires_at = now + invite_expiry })
                  d.invitations in
              let (sent, rows) = send_invite_email now s delivered inv renewed in
              (sent, record d { counters = counters; invitations = rows })
        ])

-- `revoke_invitation`
unfoldable pub revoke_invitation : ℕ → Invitation → Desk → Bool × Desk
revoke_invitation now inv d = if is_accepted inv then (false, d) else (
  true,
  record d {
    invitations =
        update_invitation inv.id (λ i. true) (λ i. record i { expires_at = now }) d.invitations;
  },
)

-- The memberships that an acceptance creates where the user has none.
join_workspaces : ℕ → List Assignment → List WorkspaceMembership → List WorkspaceMembership
join_workspaces user [] rows = rows
join_workspaces user (a ∷ rest) rows = join_workspaces user rest (
    if is_some (workspace_membership user a.workspace_id rows)
    then rows
    else record {
      user = user;
      workspace = a.workspace_id;
      workspace_role = requested_role a.role;
      custom_role = none;
    }
      ∷ rows)

-- `accept_invitation` of the row as it was loaded; `must_match` is `require_email_match`. The workspace
-- that the dashboard shows first is left out.
unfoldable pub accept_invitation : ℕ → Bool → Invitation → ℕ → Desk → Bool × Desk
unfolding join_workspaces
accept_invitation now must_match inv user d =
    if is_expired now inv || is_accepted inv || must_match && not (d.email_of user == inv.email)
    then (false, d)
    else (
      true,
      record d {
        team = record d.team {
          org_memberships =
              if is_some (org_membership user inv.organization d.team.org_memberships)
              then d.team.org_memberships
              else record { user = user; organization = inv.organization; org_role = inv.org_role }
                ∷ d.team.org_memberships;
          workspace_memberships =
              join_workspaces user inv.workspace_assignments d.team.workspace_memberships;
        };
        invitations =
            update_invitation inv.id (λ i. true) (λ i. record i { accepted_at = some now })
              d.invitations;
      },
    )
