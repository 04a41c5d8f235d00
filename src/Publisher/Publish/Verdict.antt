-- ===== src/Publisher/Publish/Verdict.antt =====
-- What decides between a retry and a permanent failure when the provider raised.
use ai_social_brightbean_stu.Common.{ℕ, Bool, not, ◌&&◌, ◌||◌, leb, if◌then◌else◌}
use ai_social_brightbean_stu.Providers.Exceptions.{ProviderException}
use ai_social_brightbean_stu.SocialAccounts.ErrorMessages.{
  UserText, friendly_publish_error, exhausted_publish_message,
}
use ai_social_brightbean_stu.Composer.PlatformPost.{PlatformPost}
use ai_social_brightbean_stu.Publisher.Store.{Store}
use ai_social_brightbean_stu.Publisher.Failure.{max_retries, set_failed}
use ai_social_brightbean_stu.Publisher.Failure.Backoff.{parked}
use ai_social_brightbean_stu.Publisher.Publish.{Attempt, refused_a_live_token}

-- No further attempt can help, or none is left.
pub is_final : ℕ → Attempt → PlatformPost → ProviderException → Bool
is_final now a pp e =
    not e.retryable || (refused_a_live_token a e now || leb max_retries pp.retry_count)

-- A permanent failure for want of budget must not promise another attempt.
last_message : ℕ → Attempt → ProviderException → UserText
last_message now a e =
    if e.retryable && not (refused_a_live_token a e now)
    then exhausted_publish_message (friendly_publish_error e now)
    else friendly_publish_error e now

-- The row that a raised exception leaves: failed where it is final, parked for a retry where not.
pub verdict : ℕ → Attempt → PlatformPost → PlatformPost → ProviderException → PlatformPost
unfolding is_final last_message
verdict now a pp old e =
    if is_final now a pp e
    then set_failed now (last_message now a e) old
    else parked now pp (friendly_publish_error e now) e.resets_at
