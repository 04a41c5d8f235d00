-- ===== src/Publisher/Failure.antt =====
-- `_fail_permanently`, `_notify_publish_failed` and `_schedule_retry` of apps/publisher/engine.py.
pub mod Guard
pub mod Backoff
use ai_social_brightbean_stu.Common.{
  ℕ, zero, suc, ◌+◌, ◌*◌, Bool, true, false, Option, none, some, List, [], ◌∷◌, ltb, leb,
  if◌then◌else◌, max,
}
use ai_social_brightbean_stu.Providers.Exceptions.{second}
use ai_social_brightbean_stu.SocialAccounts.ErrorMessages.{UserText, exhausted_publish_message}
use ai_social_brightbean_stu.Composer.Status.{scheduled, publishing, failed, ◌is◌}
use ai_social_brightbean_stu.Composer.PlatformPost.{PlatformPost}
use ai_social_brightbean_stu.Composer.Rows.{find, update, matches, save}
use ai_social_brightbean_stu.Publisher.Store.{Store}

-- `MAX_RETRIES`
abbrev pub max_retries : ℕ
max_retries = 3

-- `RETRY_BACKOFF[min(retry_count, len(RETRY_BACKOFF) - 1)]`
unfoldable pub retry_backoff : ℕ → ℕ
retry_backoff zero = 60 * second
retry_backoff (suc zero) = 300 * second
retry_backoff _ = 1800 * second

-- `_notify_publish_failed`: a post with no author has nobody to tell.
notify_publish_failed : PlatformPost → Store → Store
notify_publish_failed pp db = elim (db.post_of pp.post_id).author [
  | none ↦ db
  | some author ↦ record db { told = pp.id ∷ db.told }
]

abbrev pub is_publishing : PlatformPost → Bool
is_publishing row = row.status is publishing

abbrev pub set_failed : ℕ → UserText → PlatformPost → PlatformPost
set_failed now message row = record row {
  status = failed;
  publish_error = some message;
  updated_at = now;
}

-- The update is guarded on the row still being `publishing` in the table, whatever the copy `pp`
-- says. The author is told only by the call that settled the row.
unfoldable pub fail_permanently : ℕ → PlatformPost → UserText → Store → Store
unfolding notify_publish_failed
fail_permanently now pp message db =
    let settled = record db {
      rows = update pp.id is_publishing (set_failed now message) db.rows;
    } in
    if matches pp.id is_publishing db.rows then notify_publish_failed pp settled else settled

-- When the next attempt may be made: at the provider's reset time, but a second from now at the
-- earliest, or after the ladder's next step.
unfoldable pub next_attempt : ℕ → ℕ → Option ℕ → ℕ
unfolding retry_backoff
next_attempt now retry_count none = now + retry_backoff retry_count
next_attempt now retry_count (some retry_at) = max retry_at (now + second)

-- `_schedule_retry`; the save writes every column of the copy `pp`.
unfoldable pub schedule_retry : ℕ → PlatformPost → UserText → Option ℕ → Store → Store
schedule_retry now pp message retry_at db =
    if leb max_retries pp.retry_count
    then fail_permanently now pp (exhausted_publish_message message) db
    else record db {
      rows =
          save now
            (record pp {
              retry_count = pp.retry_count + 1;
              next_retry_at = some (next_attempt now pp.retry_count retry_at);
              status = scheduled;
              publish_error = some message;
            })
            db.rows;
    }
