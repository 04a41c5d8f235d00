-- ===== src/Providers/Exceptions.antt =====
-- providers/exceptions.py. An exception is a record with the attributes that its readers take by
-- `getattr`: `none` stands for an absent attribute and for one that is None.
use ai_social_brightbean_stu.Common.{
  ℕ, ◌+◌, ◌*◌, Bool, true, false, Option, none, some, String, ltb,
}

-- The class of the exception; `other` is any class outside the hierarchy.
pub data Kind : Type 0 where
  provider_error oauth_error token_expired rate_limit quota_exceeded publish_error api_error : Kind
  not_implemented other : Kind

pub record ProviderException : Type 0 where
  pub kind : Kind
  pub status_code : Option ℕ
  -- `_has_expired_token_code`: the response body names an expired token.
  pub expired_code : Bool
  pub retryable : Bool
  pub resets_at : Option ℕ
  pub retry_after : Option ℕ
  -- The stripped message, where `_is_user_safe` accepts it.
  pub prose : Option String

-- Instants and spans are microseconds, the resolution of Python's `datetime`.
abbrev pub second : ℕ
second = 1000000

-- `LONG_QUOTA_WINDOW`
abbrev pub long_quota_window : ℕ
long_quota_window = 3600 * second

-- An unknown deadline counts as long.
unfoldable pub is_long_window : Option ℕ → ℕ → Bool
is_long_window none now = true
is_long_window (some resets_at) now = ltb (now + long_quota_window) resets_at

-- `isinstance(exc, RateLimitError)`: `QuotaExceededError` is a subclass.
abbrev pub is_rate_limit : Kind → Bool
is_rate_limit rate_limit = true
is_rate_limit quota_exceeded = true
is_rate_limit _ = false
