-- ===== src/Publisher/Publish.antt =====
-- `_publish_platform_post` of apps/publisher/engine.py with the two tests that its error path makes.
-- What the platform, the token table and the log table answer during one attempt is an `Attempt`.
pub mod Outcome
pub mod Delivery
pub mod Verdict
use ai_social_brightbean_stu.Common.{
  ℕ, ◌+◌, String, Bool, true, false, not, ◌&&◌, Option, none, some, List, [], ◌∷◌, ltb,
  if◌then◌else◌, str_eq, gt_some,
}
use ai_social_brightbean_stu.Providers.Exceptions.{ProviderException, other}
use ai_social_brightbean_stu.SocialAccounts.ErrorMessages.{
  UserText, publish_rate_limit, publish_generic, friendly_publish_error, is_credential_rejection,
}
use ai_social_brightbean_stu.Composer.Status.{publishing, published}
use ai_social_brightbean_stu.Composer.PlatformPost.{PlatformPost}
use ai_social_brightbean_stu.Composer.Rows.{save}
use ai_social_brightbean_stu.Publisher.RateLimit.{RateLimitState, is_rate_limited}
use ai_social_brightbean_stu.Publisher.Store.{Store, LogEntry, drop_queue_entry}
use ai_social_brightbean_stu.Publisher.Failure.{fail_permanently, schedule_retry}

-- The account's token as the table has it when the failure is classified.
pub data StoredToken : Type 0 where
  unreadable missing : StoredToken
  stored : String → Option ℕ → StoredToken

-- What `_dispatch_to_provider` does: a result with the platform's handle, a result that says it
-- failed, or an exception.
pub data Dispatch : Type 0 where
  delivered : Option String → Bool → Dispatch
  reported_failure : Dispatch
  raised : ProviderException → Dispatch

pub record Attempt : Type 0 where
  pub rate_state : Option RateLimitState
  pub dispatch : Dispatch
  pub loaded_token : String
  pub token : StoredToken
  -- The `PublishLog` write of the `try` block succeeds.
  pub log_written : Bool
  -- The `PublishLog` write of the `except` block succeeds.
  pub error_log_written : Bool

-- `escaped` is an exception that leaves the method.
pub data Reply : Type 0 where
  success : Bool → Reply
  failure escaped : Reply

-- The exception that a failed write of the log raises.
abbrev pub database_error : ProviderException
database_error = record {
  kind = other;
  status_code = none;
  expired_code = false;
  retryable = true;
  resets_at = none;
  retry_after = none;
  prose = none;
}

live_token : String → StoredToken → ℕ → Bool
live_token loaded unreadable now = false
live_token loaded missing now = false
live_token loaded (stored token expires_at) now =
    if str_eq token loaded then gt_some expires_at now else false

-- `_refused_a_live_token`
unfoldable pub refused_a_live_token : Attempt → ProviderException → ℕ → Bool
unfolding live_token
refused_a_live_token a e now = is_credential_rejection e && live_token a.loaded_token a.token now

unfoldable pub limited_now : Option RateLimitState → ℕ → Bool
limited_now none now = false
limited_now (some s) now = is_rate_limited s now

abbrev pub log : PlatformPost → Bool → Store → Store
log pp succeeded db = record db {
  logs =
      record { platform_post = pp.id; attempt_number = pp.retry_count + 1; succeeded = succeeded }
      ∷ db.logs;
}

-- The `except` block.
unfoldable pub on_exception : ℕ → Attempt → PlatformPost → ProviderException → Store → Store × Reply
on_exception now a pp e db =
    if a.error_log_written
    then (
      (if e.retryable && not (refused_a_live_token a e now)
          then schedule_retry now pp (friendly_publish_error e now) e.resets_at (log pp false db)
          else fail_permanently now pp (friendly_publish_error e now) (log pp false db)),
      failure,
    )
    else (db, escaped)

-- The copy after a delivery; `published_at` is stamped only where the platform has published.
abbrev pub delivered_copy : ℕ → Option String → Bool → PlatformPost → PlatformPost
delivered_copy now handle async pp = record pp {
  platform_post_id = handle;
  retry_count = 0;
  next_retry_at = none;
  publish_error = none;
  status = if async then publishing else published;
  published_at = if async then pp.published_at else some now;
}

-- The row is saved first; the slot is freed, and only then is the log written, still inside `try`.
unfoldable pub on_delivery :
    ℕ → Attempt → PlatformPost → Option String → Bool → Store → Store × Reply
on_delivery now a pp handle async db =
    let copy = delivered_copy now handle async pp in
    let saved = record db { rows = save now copy db.rows } in
    let freed = if async then saved else drop_queue_entry copy saved in
    if a.log_written
    then (log pp true freed, success async)
    else on_exception now a copy database_error freed

unfoldable pub on_dispatch : ℕ → Attempt → PlatformPost → Dispatch → Store → Store × Reply
on_dispatch now a pp (delivered handle async) db = on_delivery now a pp handle async db
on_dispatch now a pp reported_failure db =
    if a.log_written
    then (schedule_retry now pp publish_generic none (log pp false db), failure)
    else on_exception now a pp database_error db
on_dispatch now a pp (raised e) db = on_exception now a pp e db

-- `_publish_platform_post`
unfoldable pub publish_platform_post : ℕ → Attempt → PlatformPost → Store → Store × Reply
publish_platform_post now a pp db =
    if limited_now a.rate_state now
    then (schedule_retry now pp publish_rate_limit none db, failure)
    else on_dispatch now a pp a.dispatch db
