-- ===== src/ApiKeys/Keys/Access.antt =====
-- Whom `verify_token` lets in.
use ai_social_brightbean_stu.Common.{
  ℕ, ◌≡◌, refl, ap, true, Option, none, some, List, arith, Bool-cases, inl, inr,
}
use ai_social_brightbean_stu.ApiKeys.Tokens.{Text, same_text, ParsedToken, parse_token}
use ai_social_brightbean_stu.ApiKeys.Keys.{
  ApiKey, Hashes, Cached, KeyStore, is_active, load_key, issuer_still_authorized, check_key,
  verify_token,
}

-- The token's key, as it was loaded: active now, with the hash of the token's secret, and its issuer
-- belongs to its workspace now.
pub record IsAdmitted (h : Hashes) (now : ℕ) (raw : Text) (st : KeyStore) (k : ApiKey)
    : Type 0 where
  pub parsed : ParsedToken
  pub reads : parse_token h.make_lookup raw ≡ some parsed
  pub active : is_active now k ≡ true
  pub hashed : h.hmac_hex parsed.random_part ≡ k.token_hash
  pub issuer : issuer_still_authorized k st.team ≡ true

-- What `verify_token` reads of a parsed token.
pub verify_parsed :
    (h : Hashes) (now : ℕ) (raw : Text) (st : KeyStore) (k : ApiKey)
    → (verify_token h now raw st).0 ≡ some k
    → (p : ParsedToken) × (parse_token h.make_lookup raw ≡ some p)
      × ((check_key h now p st (load_key now p.lookup_prefix st)).0 ≡ some k)
unfolding verify_token
verify_parsed h now raw st k e = read (parse_token h.make_lookup raw) refl
  where
    read :
        (r : Option ParsedToken)
        → parse_token h.make_lookup raw ≡ r
        → (p : ParsedToken) × (parse_token h.make_lookup raw ≡ some p)
          × ((check_key h now p st (load_key now p.lookup_prefix st)).0 ≡ some k)
    read none pe = absurd (ground (arith, pe, e))
    read (some p) pe = (p, pe, ground (arith, pe, e))

pub check_sound :
    (h : Hashes) (now : ℕ) (p : ParsedToken) (st : KeyStore) (row : Option ApiKey)
    (cache : List Cached) (k : ApiKey)
    → (check_key h now p st (row, cache)).0 ≡ some k
    → (row ≡ some k)
      × (is_active now k ≡ true)
      × (same_text (h.hmac_hex p.random_part) k.token_hash ≡ true)
      × (issuer_still_authorized k st.team ≡ true)
unfolding check_key
check_sound h now p st none cache k e = ground arith
check_sound h now p st (some j) cache k e = elim (Bool-cases (is_active now j)) [
  | inr dead ↦ absurd (ground (arith, dead, e))
  | inl live ↦ elim (Bool-cases (same_text (h.hmac_hex p.random_part) j.token_hash)) [
    | inr forged ↦ absurd (ground (arith, live, forged, e))
    | inl true_ ↦ elim (Bool-cases (issuer_still_authorized j st.team)) [
      | inr gone ↦ absurd (ground (arith, live, true_, gone, e))
      | inl stays ↦
          let same : j ≡ k = ground (arith, live, true_, stays, e) in
          (ap some same, rw (← same) live, rw (← same) true_, rw (← same) stays)
    ]
  ]
]
