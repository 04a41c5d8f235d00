-- ===== src/ApiKeys/Keys.antt =====
-- `ApiKey` of apps/api_keys/models.py and the functions of apps/api_keys/services.py on keys: issue,
-- update, revoke, and `verify_token` with its cache. The hashes of a secret are parameters. A set of
-- permissions is its membership test.
pub mod Scope
pub mod Access
pub mod Revocation
use ai_social_brightbean_stu.Common.{
  ℕ, ◌+◌, ◌*◌, Bool, true, false, not, ◌&&◌, ◌||◌, Option, none, some, List, [], ◌∷◌, map, ltb, leb,
  ◌==◌, if◌then◌else◌, all, is_some,
}
use ai_social_brightbean_stu.Providers.Exceptions.{second}
use ai_social_brightbean_stu.Members.Roles.{
  Permission, Permissions, WorkspaceMembership, OrgMembership, manage_api_keys,
  effective_permissions, has_org_permission,
}
use ai_social_brightbean_stu.Members.Team.{Team, org_membership, workspace_membership}
use ai_social_brightbean_stu.ApiKeys.Tokens.{Text, same_text, ParsedToken, parse_token, token_of}

pub record SocialAccount : Type 0 where
  pub id : ℕ
  pub workspace : ℕ

pub record KeyWorkspace : Type 0 where
  pub id : ℕ
  pub organization : ℕ

-- `issued_by` is `none` when the user was deleted.
pub record ApiKey : Type 0 where
  pub workspace : KeyWorkspace
  pub issued_by : Option ℕ
  pub lookup_prefix : Text
  pub token_hash : Text
  pub permissions : Permissions
  pub social_accounts : List ℕ
  pub expires_at : Option ℕ
  pub revoked_at : Option ℕ

abbrev runs : ℕ → Option ℕ → Bool
runs now none = true
runs now (some t) = ltb now t

-- `is_active`
unfoldable pub is_active : ℕ → ApiKey → Bool
is_active now k = not (is_some k.revoked_at) && runs now k.expires_at

-- The hashes of a secret: `_make_lookup` and `_hmac_hex`.
pub record Hashes : Type 0 where
  pub make_lookup : Text → Text
  pub hmac_hex : Text → Text

-- One account at least, and all of the workspace.
unfoldable pub may_allow : KeyWorkspace → List SocialAccount → Bool
may_allow ws [] = false
may_allow ws (a ∷ as_) = all (λ s. s.workspace == ws.id) (a ∷ as_)

-- What the user may grant in the workspace; `none` if the user may not manage its keys.
unfoldable pub grantable : KeyWorkspace → ℕ → Team → Option Permissions
grantable ws user t =
    if has_org_permission (org_membership user ws.organization t.org_memberships) manage_api_keys
    then elim (workspace_membership user ws.id t.workspace_memberships) [
      | none ↦ none
      | some m ↦ some (effective_permissions m)
    ]
    else none

-- Every requested permission is held. `every` runs through the keys of the catalogue.
unfoldable pub is_subset : List Permission → Permissions → Permissions → Bool
is_subset every requested held = all (λ p. not (requested p) || held p) every

-- `PERMISSION_KEYS` as a list.
abbrev pub permission_keys : List Permission
permission_keys =
    Permission.create_posts ∷ Permission.edit_others_posts ∷ Permission.approve_posts
    ∷ Permission.publish_directly ∷ Permission.manage_social_accounts ∷ Permission.view_analytics
    ∷ Permission.use_inbox ∷ Permission.reply_from_inbox ∷ Permission.manage_workspace_settings
    ∷ Permission.upload_media ∷ Permission.edit_media ∷ Permission.delete_media
    ∷ Permission.manage_media ∷ []

-- `issue_api_key` for the secret `random`: the key and its token. `none` is the `ValueError`.
unfoldable pub issue_api_key :
    Hashes
    → Text
    → KeyWorkspace
    → List SocialAccount
    → ℕ
    → Permissions
    → Option ℕ
    → Team
    → Option (ApiKey × Text)
issue_api_key h random ws accounts issued_by requested expires_at t = elim (may_allow ws accounts) [
  | false ↦ none
  | true ↦ elim (grantable ws issued_by t) [
    | none ↦ none
    | some held ↦ elim (is_subset permission_keys requested held) [
      | false ↦ none
      | true ↦ some (
        record {
          workspace = ws;
          issued_by = some issued_by;
          lookup_prefix = h.make_lookup random;
          token_hash = h.hmac_hex random;
          permissions = requested;
          social_accounts = map (λ a. a.id) accounts;
          expires_at = expires_at;
          revoked_at = none;
        },
        token_of h.make_lookup random,
      )
    ]
  ]
]

-- `update_api_key`; `none` is the `ValueError`.
unfoldable pub update_api_key :
    ApiKey → ℕ → Permissions → List SocialAccount → Option ℕ → Team → Option ApiKey
update_api_key k editor requested accounts expires_at t = elim (grantable k.workspace editor t) [
  | none ↦ none
  | some held ↦ elim (may_allow k.workspace accounts) [
    | false ↦ none
    | true ↦ some (record k {
      permissions = λ p. requested p && held p || k.permissions p && not (held p);
      expires_at = expires_at;
      social_accounts = map (λ a. a.id) accounts;
    })
  ]
]

-- A cached row, until an instant.
pub record Cached : Type 0 where
  pub key : ApiKey
  pub until : ℕ

-- The table of keys, the cache, and the members.
pub record KeyStore : Type 0 where
  pub keys : List ApiKey
  pub cache : List Cached
  pub team : Team

-- `get(lookup_prefix=lookup)`
unfoldable pub find_key : Text → List ApiKey → Option ApiKey
find_key lookup [] = none
find_key lookup (k ∷ ks) =
    let rest = find_key lookup ks in if same_text k.lookup_prefix lookup then some k else rest

-- `cache.get` of a row.
unfoldable pub cache_get : ℕ → Text → List Cached → Option ApiKey
cache_get now lookup [] = none
cache_get now lookup (c ∷ cs) =
    let rest = cache_get now lookup cs in
    if same_text c.key.lookup_prefix lookup && ltb now c.until then some c.key else rest

-- `cache.delete` of a row.
unfoldable pub cache_delete : Text → List Cached → List Cached
cache_delete lookup [] = []
cache_delete lookup (c ∷ cs) =
    let rest = cache_delete lookup cs in
    if same_text c.key.lookup_prefix lookup then rest else c ∷ rest

-- `REVOCATION_CACHE_TTL`
abbrev pub revocation_cache_ttl : ℕ
revocation_cache_ttl = 30 * second

cache_row : ℕ → Option ApiKey → List Cached → List Cached
cache_row now none cs = cs
cache_row now (some k) cs =
    if is_active now k
    then record { key = k; until = now + revocation_cache_ttl } ∷ cache_delete k.lookup_prefix cs
    else cs

-- The row from the cache or the table, with the cache after it.
unfoldable pub load_key : ℕ → Text → KeyStore → Option ApiKey × List Cached
unfolding cache_row
load_key now lookup st = elim (cache_get now lookup st.cache) [
  | some k ↦ (some k, st.cache)
  | none ↦ let row = find_key lookup st.keys in (row, cache_row now row st.cache)
]

-- `_issuer_still_authorized`
unfoldable pub issuer_still_authorized : ApiKey → Team → Bool
issuer_still_authorized k t = elim k.issued_by [
  | none ↦ false
  | some user ↦ is_some (workspace_membership user k.workspace.id t.workspace_memberships)
]

unfoldable pub check_key :
    Hashes → ℕ → ParsedToken → KeyStore → Option ApiKey × List Cached → Option ApiKey × KeyStore
check_key h now p st (none, cache) = (none, record st { cache = cache })
check_key h now p st (some k, cache) =
    if not (is_active now k)
    then (none, record st { cache = cache_delete p.lookup_prefix cache })
    else (if not (same_text (h.hmac_hex p.random_part) k.token_hash)
        then (none, record st { cache = cache })
        else (if not (issuer_still_authorized k st.team)
            then (none, record st { cache = cache_delete p.lookup_prefix cache })
            else (some k, record st { cache = cache })))

-- `verify_token`
unfoldable pub verify_token : Hashes → ℕ → Text → KeyStore → Option ApiKey × KeyStore
unfolding check_key
verify_token h now raw st = elim (parse_token h.make_lookup raw) [
  | none ↦ (none, st)
  | some p ↦ check_key h now p st (load_key now p.lookup_prefix st)
]

unfoldable pub replace_key : Text → (ApiKey → ApiKey) → List ApiKey → List ApiKey
replace_key lookup change [] = []
replace_key lookup change (k ∷ ks) =
    (if same_text k.lookup_prefix lookup then change k else k) ∷ replace_key lookup change ks

-- `revoke_api_key` of the key as it was loaded.
unfoldable pub revoke_api_key : ℕ → ApiKey → KeyStore → KeyStore
revoke_api_key now key st = record st {
  keys =
      if is_some key.revoked_at
      then st.keys
      else replace_key key.lookup_prefix (λ k. record k { revoked_at = some now }) st.keys;
  cache = cache_delete key.lookup_prefix st.cache;
}
