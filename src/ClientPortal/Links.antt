-- ===== src/ClientPortal/Links.antt =====
-- Magic links: `MagicLinkToken` of apps/client_portal/models.py, the functions of
-- apps/client_portal/services.py and decorators.py on it, and `magic_link_entry` of views.py. The id
-- and the token of a new row and the sending of the mail are inputs.
pub mod Single
pub mod Issue
use ai_social_brightbean_stu.Common.{
  ℕ, ◌+◌, ◌*◌, Bool, true, false, not, ◌&&◌, Option, none, some, List, [], ◌∷◌, map, filter, any,
  ltb, ◌==◌, if◌then◌else◌,
}
use ai_social_brightbean_stu.Providers.Exceptions.{second}
use ai_social_brightbean_stu.Members.Roles.{WorkspaceRole, WorkspaceMembership, ws_role_level}

pub record MagicLinkToken : Type 0 where
  pub id : ℕ
  pub user : ℕ
  pub workspace : ℕ
  pub token : ℕ
  pub expires_at : ℕ
  pub last_used_at : Option ℕ
  pub is_consumed : Bool

-- `_default_expiry`, as a span.
abbrev pub link_expiry : ℕ
link_expiry = 30 * 24 * 3600 * second

unfoldable pub is_expired : ℕ → MagicLinkToken → Bool
is_expired now t = ltb t.expires_at now

abbrev pub Links : Type 0
Links = List MagicLinkToken

-- `get(token=token)`
unfoldable pub find_link : ℕ → Links → Option MagicLinkToken
find_link token [] = none
find_link token (t ∷ ts) =
    let rest = find_link token ts in if t.token == token then some t else rest

is_client_role : WorkspaceRole → Bool
is_client_role WorkspaceRole.client = true
is_client_role _ = false

unfoldable pub is_client : ℕ → ℕ → List WorkspaceMembership → Bool
unfolding is_client_role
is_client user workspace rows =
    any (λ m. m.user == user && (m.workspace == workspace && is_client_role m.workspace_role)) rows

-- The links that a new one replaces.
abbrev pub is_superseded : ℕ → ℕ → ℕ → MagicLinkToken → Bool
is_superseded now user workspace t =
    t.user == user && (t.workspace == workspace && (not t.is_consumed && ltb now t.expires_at))

abbrev pub new_link : ℕ → ℕ → ℕ → ℕ → ℕ → MagicLinkToken
new_link now id token user workspace = record {
  id = id;
  user = user;
  workspace = workspace;
  token = token;
  expires_at = now + link_expiry;
  last_used_at = none;
  is_consumed = false;
}

-- `filter(pk__in=ids).update(expires_at=at)`
unfoldable pub expire_all : ℕ → List ℕ → Links → Links
expire_all at ids ts =
    map (λ t. if any (λ i. i == t.id) ids then record t { expires_at = at } else t) ts

-- `generate_magic_link`; the mail is done with at `sent_at`. No result stands for the `ValueError`.
unfoldable pub generate_magic_link :
    ℕ → ℕ → Bool → ℕ → ℕ → ℕ → ℕ → List WorkspaceMembership → Links → Option MagicLinkToken × Links
generate_magic_link now sent_at delivered id token user workspace members links =
    if not (is_client user workspace members)
    then (none, links)
    else (let superseded = map (λ t. t.id) (filter (is_superseded now user workspace) links) in
        let fresh = new_link now id token user workspace in
        if delivered
        then (some fresh, expire_all sent_at superseded (fresh ∷ links))
        else (none, filter (λ t. not (t.id == id)) (fresh ∷ links)))

-- What a link opens: its user and workspace.
abbrev pub Opened : Type 0
Opened = Option (ℕ × ℕ)

unfoldable pub peek_magic_link : ℕ → ℕ → Links → Option MagicLinkToken
peek_magic_link now token links = elim (find_link token links) [
  | none ↦ none
  | some t ↦ if is_expired now t then none else if t.is_consumed then none else some t
]

-- `filter(pk=id, is_consumed=False).update(...)`
unfoldable pub flip_consumed : ℕ → ℕ → Links → Links
flip_consumed now id links =
    map
      (λ t.
        if t.id == id && not t.is_consumed
        then record t { is_consumed = true; last_used_at = some now }
        else t)
      links

-- Rows that the update finds.
unfoldable pub is_flippable : ℕ → Links → Bool
is_flippable id links = any (λ t. t.id == id && not t.is_consumed) links

-- The second half of `consume_magic_link`, for the row `t` that the first half read.
unfoldable pub flip_row : ℕ → MagicLinkToken → Links → Opened × Links
flip_row now t links =
    if is_flippable t.id links
    then (some (t.user, t.workspace), flip_consumed now t.id links)
    else (none, links)

unfoldable pub consume_magic_link : ℕ → ℕ → Links → Opened × Links
consume_magic_link now token links = elim (find_link token links) [
  | none ↦ (none, links)
  | some t ↦ if is_expired now t then (none, links) else flip_row now t links
]

unfoldable pub revoke_magic_link : ℕ → ℕ → ℕ → Links → Links
revoke_magic_link now id workspace links =
    map
      (λ t.
        if t.id == id && (t.workspace == workspace && ltb now t.expires_at)
        then record t { expires_at = now }
        else t)
      links

-- The session's variables that `create_portal_session` sets, beside the user that it logs in.
pub record Session : Type 0 where
  pub user : Option ℕ
  pub is_portal_session : Bool
  pub portal_workspace_id : Option ℕ

unfoldable pub create_portal_session : ℕ → ℕ → Session
create_portal_session user workspace = record {
  user = some user;
  is_portal_session = true;
  portal_workspace_id = some workspace;
}

-- `magic_link_entry` by GET and by POST: the page or the new session, or the page of an expired link.
unfoldable pub get_entry : ℕ → ℕ → Links → Bool × Links
get_entry now token links = elim (peek_magic_link now token links) [
  | none ↦ (false, links)
  | some t ↦ (true, links)
]

unfoldable pub post_entry : ℕ → ℕ → Session → Links → Session × Links
post_entry now token session links =
    let (opened, after) = consume_magic_link now token links in
    elim opened [
      | none ↦ (session, after)
      | some (user, workspace) ↦ (create_portal_session user workspace, after)
    ]

-- `portal_auth_required`: the user and the workspace of the request, if it goes through.
unfoldable pub portal_auth_required : Session → List ℕ → List WorkspaceMembership → Opened
portal_auth_required session workspaces members = elim session.user [
  | none ↦ none
  | some user ↦ if not session.is_portal_session then none else elim session.portal_workspace_id [
    | none ↦ none
    | some id ↦
        if any (λ w. w == id) workspaces && any (λ m. m.user == user && m.workspace == id) members
        then some (user, id)
        else none
  ]
]
