-- ===== src/Api/Limits.antt =====
-- The daily quota of an account in apps/api/limits.py.
pub mod Quota
use ai_social_brightbean_stu.Common.{
  ℕ, ◌+◌, ◌-◌, ◌*◌, ◌/◌, min, max, String, Bool, true, false, ◌&&◌, Option, none, some, List, [],
  ◌∷◌, leb, ◌==◌, str_eq, if◌then◌else◌, filter, length,
}
use ai_social_brightbean_stu.Providers.Exceptions.{second}
use ai_social_brightbean_stu.Composer.Status.{Status, scheduled, publishing, published, failed}
use ai_social_brightbean_stu.Composer.PlatformPost.{PlatformPost}
use ai_social_brightbean_stu.Composer.Rows.{Rows}

pub record SocialAccount : Type 0 where
  pub id : ℕ
  pub platform : String
  pub daily_post_limit_override : Option ℕ

-- `PLATFORM_DAILY_POST_LIMIT`
unfoldable pub platform_daily_post_limit : List (String × ℕ)
platform_daily_post_limit =
    ("linkedin_personal", 100)
    ∷ ("linkedin_company", 100)
    ∷ ("facebook", 200)
    ∷ ("instagram", 25)
    ∷ ("instagram_login", 25)
    ∷ ("tiktok", 15)
    ∷ ("youtube", 50)
    ∷ ("pinterest", 100)
    ∷ ("threads", 250)
    ∷ ("mastodon", 200)
    ∷ ("bluesky", 200)
    ∷ ("google_business", 50)
    ∷ []

-- `_DEFAULT_FALLBACK`
abbrev pub default_fallback : ℕ
default_fallback = 50

limit_of : String → List (String × ℕ) → ℕ
limit_of platform [] = default_fallback
limit_of platform ((name, limit) ∷ rest) =
    let other = limit_of platform rest in if str_eq name platform then limit else other

-- An override of 0 counts.
platform_limit : Option ℕ → String → ℕ
unfolding limit_of platform_daily_post_limit
platform_limit none platform = limit_of platform platform_daily_post_limit
platform_limit (some override) platform = override

unfoldable pub resolve_platform_limit : SocialAccount → ℕ
unfolding platform_limit
resolve_platform_limit account = platform_limit account.daily_post_limit_override account.platform

-- `QUOTA_CONSUMING_STATUSES`
unfoldable pub consumes_quota : Status → Bool
consumes_quota scheduled = true
consumes_quota publishing = true
consumes_quota published = true
consumes_quota failed = true
consumes_quota _ = false

abbrev pub window : ℕ
window = 24 * 3600 * second

-- The query that the count and the oldest row share; `updated_at >= now - window` has the sum on the
-- other side.
unfoldable pub recent_creations : ℕ → ℕ → Rows → Rows
recent_creations now account rows =
    filter
      (λ row.
        row.social_account == account
        && (leb now (row.updated_at + window) && consumes_quota row.status))
      rows

unfoldable pub count_recent_creations : ℕ → ℕ → Rows → ℕ
count_recent_creations now account rows = length (recent_creations now account rows)

sooner : ℕ → Option ℕ → Option ℕ
sooner t none = some t
sooner t (some u) = some (min t u)

unfoldable pub oldest_update : Rows → Option ℕ
unfolding sooner
oldest_update [] = none
oldest_update (row ∷ rows) = sooner row.updated_at (oldest_update rows)

-- Whole seconds, cut off; a row of the query is no older than the window.
retry_after_seconds : ℕ → Option ℕ → ℕ
retry_after_seconds now none = max 60 1
retry_after_seconds now (some oldest) = max ((oldest + window - now) / second) 1

-- What the check does: nothing, or the 429 with the limit and `retry_after`.
pub data QuotaCheck : Type 0 where
  allowed : QuotaCheck
  refused : ℕ → ℕ → QuotaCheck

unfoldable pub check_platform_quota : ℕ → SocialAccount → Rows → QuotaCheck
unfolding retry_after_seconds
check_platform_quota now account rows =
    if leb (resolve_platform_limit account) (count_recent_creations now account.id rows)
    then refused (resolve_platform_limit account)
        (retry_after_seconds now (oldest_update (recent_creations now account.id rows)))
    else allowed
