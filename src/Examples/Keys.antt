-- ===== src/Examples/Keys.antt =====
-- A key of the administrator's, with a hash that is the same for all secrets.
use ai_social_brightbean_stu.Common.{
  ℕ, zero, suc, ◌≡◌, ◌↔◌, refl, true, false, not, ◌&&◌, ◌||◌, none, some, List, [], ◌∷◌, ◌++◌,
}
use ai_social_brightbean_stu.Members.Roles.{
  Permission, Permissions, WorkspaceRole, effective_permissions, builtin_role_permissions,
  has_org_permission,
}
use ai_social_brightbean_stu.Members.Team.{org_membership, workspace_membership}
use ai_social_brightbean_stu.ApiKeys.Tokens.{Text, ParsedToken, parse_token, token_of}
use ai_social_brightbean_stu.ApiKeys.Tokens.Reading.{IsSecret, parse_exact}
use ai_social_brightbean_stu.ApiKeys.Keys.{
  SocialAccount, KeyWorkspace, ApiKey, Hashes, KeyStore, may_allow, grantable, is_subset,
  issue_api_key, update_api_key,
}
use ai_social_brightbean_stu.Examples.Membership.{team}

abbrev repeat : ℕ → ℕ → Text
repeat zero c = []
repeat (suc n) c = c ∷ repeat n c

-- Forty characters, underscores among them.
abbrev secret : Text
secret = repeat 20 b'x' ++ repeat 20 b'_'

abbrev lookup : Text
lookup = repeat 8 b'a'

abbrev hashes : Hashes
hashes = record { make_lookup = λ t. lookup; hmac_hex = λ t. t }

abbrev parsed : ParsedToken
parsed = record { random_part = secret; lookup_prefix = lookup }

parse_exact_example : (parse_token (λ t. lookup) (token_of (λ t. lookup) secret) ≡ some parsed) ↔ (
    (token_of (λ t. lookup) secret ≡ token_of (λ t. lookup) secret)
    × IsSecret secret
    × (lookup ≡ lookup))
parse_exact_example =
    parse_exact (λ t. lookup)
      (λ t. (refl, (refl, (refl, (refl, (refl, (refl, (refl, (refl, tt))))))))) (λ t. refl)
      (token_of (λ t. lookup) secret) parsed

abbrev workspace : KeyWorkspace
workspace = record { id = 50; organization = 5 }

abbrev accounts : List SocialAccount
accounts = record { id = 3; workspace = 50 } ∷ []

abbrev writes : Permissions
writes Permission.create_posts = true
writes _ = false

abbrev key : ApiKey
key = record {
  workspace = workspace;
  issued_by = some 2;
  lookup_prefix = lookup;
  token_hash = secret;
  permissions = writes;
  social_accounts = 3 ∷ [];
  expires_at = none;
  revoked_at = none;
}

issued :
    issue_api_key hashes secret workspace accounts 2 writes none team
    ≡ some (key, token_of (λ t. lookup) secret)
unfolding issue_api_key may_allow grantable is_subset has_org_permission org_membership
    workspace_membership effective_permissions builtin_role_permissions
issued = refl

abbrev reads : Permissions
reads Permission.view_analytics = true
reads _ = false

abbrev edited : ApiKey
edited = record key {
  permissions = λ p.
      reads p && builtin_role_permissions WorkspaceRole.manager p
      || writes p && not (builtin_role_permissions WorkspaceRole.manager p);
  expires_at = some 9;
}

edits : update_api_key key 2 reads accounts (some 9) team ≡ some edited
unfolding update_api_key may_allow grantable has_org_permission org_membership workspace_membership
    effective_permissions builtin_role_permissions
edits = refl

abbrev store : KeyStore
store = record { keys = key ∷ []; cache = []; team = team }

abbrev uses : List (ℕ × Text)
uses = (11, token_of (λ t. lookup) secret) ∷ []
