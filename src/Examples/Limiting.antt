-- ===== src/Examples/Limiting.antt =====
-- The quota of an account that has used its one post a day.
use ai_social_brightbean_stu.Common.{◌*◌, ◌≡◌, refl, some, [], ◌∷◌}
use ai_social_brightbean_stu.Providers.Exceptions.{second}
use ai_social_brightbean_stu.Composer.Status.{published}
use ai_social_brightbean_stu.Composer.PlatformPost.{PlatformPost}
use ai_social_brightbean_stu.Api.Limits.{
  SocialAccount, resolve_platform_limit, consumes_quota, recent_creations, count_recent_creations,
  oldest_update, refused, check_platform_quota,
}
use ai_social_brightbean_stu.Examples.Data.{new_row}

abbrev account : SocialAccount
account = record { id = 3; platform = "tiktok"; daily_post_limit_override = some 1 }

abbrev row : PlatformPost
row = new_row 1 7 published

is_refused : check_platform_quota (3600 * second) account (row ∷ []) ≡ refused 1 82800
unfolding check_platform_quota resolve_platform_limit count_recent_creations recent_creations
    oldest_update consumes_quota
is_refused = refl
