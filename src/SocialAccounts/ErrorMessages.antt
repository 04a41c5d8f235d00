-- ===== src/SocialAccounts/ErrorMessages.antt =====
-- apps/social_accounts/error_messages.py. A text that the file spells is a constructor; `authored`
-- is a sentence that a provider wrote for the user.
use ai_social_brightbean_stu.Common.{
  ℕ, Bool, true, false, ◌||◌, Option, none, some, String, leb, ◌==◌, if◌then◌else◌,
}
use ai_social_brightbean_stu.Providers.Exceptions.{
  Kind, oauth_error, token_expired, rate_limit, quota_exceeded, publish_error, api_error,
  ProviderException, is_long_window,
}

pub data UserText : Type 0 where
  publish_reconnect publish_temporary publish_rate_limit publish_rejected publish_generic : UserText
  publish_exhausted publish_interrupted publish_confirm_timeout publish_unconfirmed : UserText
  -- The sentence on a spent daily budget, with the hour at which it resumes where one is named.
  publish_quota_exhausted : Option ℕ → UserText
  first_comment_reconnect first_comment_temporary first_comment_rejected : UserText
  first_comment_generic first_comment_no_handle : UserText
  first_comment_quota_exhausted : Option ℕ → UserText
  authored : String → UserText

-- The failure shapes of `_classify`.
pub data Shape : Type 0 where
  reconnect rate_limited quota_exhausted unavailable rejected unknown : Shape

is_auth_status : Option ℕ → Bool
is_auth_status none = false
is_auth_status (some c) = c == 401 || c == 403

is_server_status : Option ℕ → Bool
is_server_status none = false
is_server_status (some c) = leb 500 c

pub is_unauthorized : Option ℕ → Bool
is_unauthorized none = false
is_unauthorized (some c) = c == 401

classify_api : ProviderException → Shape
unfolding is_auth_status is_server_status
classify_api e =
    if is_auth_status e.status_code
    then reconnect
    else if e.expired_code
    then reconnect
    else if is_server_status e.status_code
    then unavailable
    else rejected

classify_kind : Kind → ProviderException → ℕ → Shape
unfolding classify_api
classify_kind token_expired e now = reconnect
classify_kind quota_exceeded e now =
    if is_long_window e.resets_at now then quota_exhausted else rate_limited
classify_kind rate_limit e now = rate_limited
classify_kind api_error e now = classify_api e
classify_kind oauth_error e now = reconnect
classify_kind _ e now = unknown

-- `_classify`
pub classify : ProviderException → ℕ → Shape
unfolding classify_kind is_long_window
classify e now = classify_kind e.kind e now

-- `_quota_reset_phrase`: a deadline that has passed is not named.
reset_hour : Option ℕ → ℕ → Option ℕ
reset_hour none now = none
reset_hour (some resets_at) now = if leb resets_at now then none else some resets_at

publish_copy : Shape → Option ℕ → UserText
publish_copy reconnect hour = publish_reconnect
publish_copy rate_limited hour = publish_rate_limit
publish_copy quota_exhausted hour = publish_quota_exhausted hour
publish_copy unavailable hour = publish_temporary
publish_copy rejected hour = publish_rejected
publish_copy unknown hour = publish_generic

first_comment_copy : Shape → Option ℕ → UserText
first_comment_copy quota_exhausted hour = first_comment_quota_exhausted hour
first_comment_copy reconnect hour = first_comment_reconnect
first_comment_copy rate_limited hour = first_comment_temporary
first_comment_copy unavailable hour = first_comment_temporary
first_comment_copy rejected hour = first_comment_rejected
first_comment_copy unknown hour = first_comment_generic

-- `_friendly`: only a `PublishError` passes its own sentence through.
friendly : (Shape → Option ℕ → UserText) → Kind → Option String → ProviderException → ℕ → UserText
unfolding classify reset_hour
friendly copy publish_error (some message) e now = authored message
friendly copy _ _ e now = copy (classify e now) (reset_hour e.resets_at now)

unfoldable pub friendly_publish_error : ProviderException → ℕ → UserText
unfolding friendly publish_copy
friendly_publish_error e now = friendly publish_copy e.kind e.prose e now

unfoldable pub friendly_first_comment_error : ProviderException → ℕ → UserText
unfolding friendly first_comment_copy
friendly_first_comment_error e now = friendly first_comment_copy e.kind e.prose e now

rejects_credentials : Kind → ProviderException → Bool
unfolding is_unauthorized
rejects_credentials token_expired e = true
rejects_credentials oauth_error e = true
rejects_credentials api_error e = is_unauthorized e.status_code || e.expired_code
rejects_credentials _ e = false

unfoldable pub is_credential_rejection : ProviderException → Bool
unfolding rejects_credentials
is_credential_rejection e = rejects_credentials e.kind e

-- What a post says once its retries are spent; a promise of another attempt gives way.
unfoldable pub exhausted_publish_message : UserText → UserText
exhausted_publish_message publish_temporary = publish_exhausted
exhausted_publish_message publish_rate_limit = publish_exhausted
exhausted_publish_message publish_generic = publish_exhausted
exhausted_publish_message publish_reconnect = publish_exhausted
exhausted_publish_message (publish_quota_exhausted hour) = publish_quota_exhausted none
exhausted_publish_message t = t
