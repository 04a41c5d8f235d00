-- ===== src/Quota/Breaker.antt =====
-- The quota circuit breaker of apps/common/quota.py, with the cache of a run. Platforms, credentials
-- and scopes are named by numbers, since the code only compares them; the empty scope is 0.
pub mod Latest
pub mod Cached
use ai_social_brightbean_stu.Common.{
  ℕ, ◌+◌, ◌*◌, Bool, true, false, ◌&&◌, Option, none, some, List, [], ◌∷◌, ltb, leb, ◌==◌,
  if◌then◌else◌, or_else,
}
use ai_social_brightbean_stu.Providers.Exceptions.{second}

-- `(platform, credential_key, quota_scope)`
pub record Budget : Type 0 where
  pub platform : ℕ
  pub credential_key : ℕ
  pub quota_scope : ℕ

abbrev pub same_budget : Budget → Budget → Bool
same_budget a b =
    a.platform == b.platform
    && (a.credential_key == b.credential_key && a.quota_scope == b.quota_scope)

-- `ProviderQuotaBlock`
pub record QuotaBlock : Type 0 where
  pub budget : Budget
  pub blocked_until : ℕ

abbrev pub Cache : Type 0
Cache = List (Budget × Option ℕ)

-- A run's cache, if it has one, and the table.
pub record Breaker : Type 0 where
  pub cache : Option Cache
  pub blocks : List QuotaBlock

unfoldable pub deadline : Budget → List QuotaBlock → Option ℕ
deadline b [] = none
deadline b (q ∷ qs) =
    let rest = deadline b qs in if same_budget q.budget b then some q.blocked_until else rest

unfoldable pub find_cached : Budget → Cache → Option (Option ℕ)
find_cached b [] = none
find_cached b (c ∷ cs) = let rest = find_cached b cs in if same_budget c.0 b then some c.1 else rest

unfoldable pub cache_set : Budget → Option ℕ → Option Cache → Option Cache
cache_set b u none = none
cache_set b u (some cs) = some ((b, u) ∷ cs)

-- The deadline that a question finds, in the cache or in the table.
unfoldable pub read_deadline : Budget → Breaker → Option ℕ
read_deadline b s = elim s.cache [
  | none ↦ deadline b s.blocks
  | some cs ↦ elim (find_cached b cs) [ some u ↦ u | none ↦ deadline b s.blocks ]
]

-- A deadline that has passed blocks nothing.
unfoldable pub still_blocked : ℕ → Option ℕ → Option ℕ
still_blocked now none = none
still_blocked now (some u) = if leb u now then none else some u

unfoldable pub quota_blocked_until : ℕ → Budget → Breaker → Option ℕ × Breaker
quota_blocked_until now b s =
    let u = read_deadline b s in (still_blocked now u, record s { cache = cache_set b u s.cache })

-- The locked `get_or_create`: a row that is there gets a later deadline only.
unfoldable pub extend : Budget → ℕ → List QuotaBlock → List QuotaBlock
extend b until [] = record { budget = b; blocked_until = until } ∷ []
extend b until (q ∷ qs) =
    let rest = extend b until qs in
    if same_budget q.budget b
    then (if ltb q.blocked_until until then record q { blocked_until = until } else q) ∷ qs
    else q ∷ rest

-- `trip_quota_block`; the log lines are left out.
unfoldable pub trip_quota_block : Budget → ℕ → Breaker → Breaker
trip_quota_block b until s =
    let blocks = extend b until s.blocks in
    record { cache = cache_set b (deadline b blocks) s.cache; blocks = blocks }

-- The platforms that meter two budgets, as `_PLATFORM_SCOPES` maps them: by account and by post.
unfoldable pub scopes_for : (ℕ → Option (ℕ × ℕ)) → ℕ → ℕ × ℕ
scopes_for platform_scopes platform = elim (platform_scopes platform) [ none ↦ (0, 0) | some s ↦ s ]

unfoldable pub read_scope : (ℕ → Option (ℕ × ℕ)) → ℕ → ℕ
read_scope platform_scopes platform = (scopes_for platform_scopes platform).1

-- `DEFAULT_QUOTA_BACKOFF`
abbrev pub default_quota_backoff : ℕ
default_quota_backoff = 3600 * second

abbrev given : ℕ → Option ℕ → ℕ
given fallback none = fallback
given fallback (some n) = n

-- `trip_from_exception` of an exception with these attributes.
unfoldable pub trip_from_exception :
    (ℕ → Option (ℕ × ℕ)) → ℕ → ℕ → ℕ → Option ℕ → ℕ → Option ℕ → ℕ → Breaker → Breaker
trip_from_exception scopes now platform key resets_at exc_scope default_scope backoff s =
    let until = given (now + backoff) resets_at in
    let scope =
      if exc_scope == 0 then given (read_scope scopes platform) default_scope else exc_scope in
    trip_quota_block (record { platform = platform; credential_key = key; quota_scope = scope })
      until s
