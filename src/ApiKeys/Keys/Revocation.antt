-- ===== src/ApiKeys/Keys/Revocation.antt =====
-- The cache of `verify_token`, and what a revocation does to it.
use ai_social_brightbean_stu.Common.{ℕ, ◌≡◌, true, some, List, [], ◌∷◌, is_some}
use ai_social_brightbean_stu.ApiKeys.Tokens.{Text}
use ai_social_brightbean_stu.ApiKeys.Keys.{ApiKey, Hashes, Cached, KeyStore, find_key, verify_token}

-- Each cached row is the table's.
unfoldable pub IsFresh : List ApiKey → List Cached → Type 0
IsFresh keys [] = Unit
IsFresh keys (c ∷ cs) = (find_key c.key.lookup_prefix keys ≡ some c.key) × IsFresh keys cs

-- The table is left alone and the cache stays fresh.
abbrev Keeps : List ApiKey → KeyStore → Type 0
Keeps keys st = (st.keys ≡ keys) × IsFresh keys st.cache

-- The store after these tokens have been tried at these instants.
pub verifies : Hashes → List (ℕ × Text) → KeyStore → KeyStore
verifies h [] st = st
verifies h ((now, raw) ∷ rest) st = verifies h rest (verify_token h now raw st).1

-- A fresh store whose row of this lookup is revoked.
record IsShut (lookup : Text) (st : KeyStore) : Type 0 where
  row : ApiKey
  fresh : IsFresh st.keys st.cache
  found : find_key lookup st.keys ≡ some row
  dead : is_some row.revoked_at ≡ true
