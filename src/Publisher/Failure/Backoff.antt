-- ===== src/Publisher/Failure/Backoff.antt =====
-- The retry ladder: how far away the next attempt is, and what `_schedule_retry` leaves in the row.
use ai_social_brightbean_stu.Common.{
  ℕ, zero, suc, ◌+◌, ◌*◌, ◌≡◌, ◌≢◌, ◌≤◌, ◌<◌, refl, Option, none, some, arith, leb, false,
}
use ai_social_brightbean_stu.Providers.Exceptions.{second}
use ai_social_brightbean_stu.SocialAccounts.ErrorMessages.{UserText, exhausted_publish_message}
use ai_social_brightbean_stu.Composer.Status.{scheduled}
use ai_social_brightbean_stu.Composer.PlatformPost.{PlatformPost}
use ai_social_brightbean_stu.Composer.Rows.{find}
use ai_social_brightbean_stu.Composer.Rows.Laws.{find-save_self, find-save_ne}
use ai_social_brightbean_stu.Publisher.Store.{Store}
use ai_social_brightbean_stu.Publisher.Failure.{
  max_retries, retry_backoff, next_attempt, fail_permanently, schedule_retry,
}

-- Each rung of the ladder is a minute at least and half an hour at most, and the next is no shorter.
pub retry_backoff_ladder :
    (n : ℕ)
    → (60 * second ≤ retry_backoff n)
      × (retry_backoff n ≤ 1800 * second)
      × (retry_backoff n ≤ retry_backoff (suc n))
unfolding retry_backoff
retry_backoff_ladder zero = omega arith
retry_backoff_ladder (suc zero) = omega arith
retry_backoff_ladder (suc (suc n)) = omega arith

-- The next attempt is at least a second away and never before the reset that the provider named;
-- where it named none, the attempt is between a minute and half an hour away.
pub next_attempt_bounds :
    (now n reset : ℕ)
    → (now + second ≤ next_attempt now n (some reset))
      × (reset ≤ next_attempt now n (some reset))
      × (now + 60 * second ≤ next_attempt now n none)
      × (next_attempt now n none ≤ now + 1800 * second)
unfolding next_attempt
next_attempt_bounds now n reset = omega (arith, retry_backoff_ladder n)

next_attempt-lt : (now n : ℕ) (reset : Option ℕ) → now < next_attempt now n reset
next_attempt-lt now n none = omega (arith, next_attempt_bounds now n 0)
next_attempt-lt now n (some reset) = omega (arith, next_attempt_bounds now n reset)

budget_left : (n : ℕ) → n < max_retries → leb max_retries n ≡ false
budget_left n h = ground arith

-- The row that a retry leaves: the copy `pp`, waiting for its next attempt.
abbrev pub parked : ℕ → PlatformPost → UserText → Option ℕ → PlatformPost
parked now pp message retry_at = record pp {
  retry_count = pp.retry_count + 1;
  next_retry_at = some (next_attempt now pp.retry_count retry_at);
  status = scheduled;
  publish_error = some message;
  updated_at = now;
}

-- With budget left the row goes back to `scheduled` with one attempt more on its count, which stays
-- within the budget, and a next attempt that lies in the future; no other row is touched and nobody
-- is told. With the budget spent the call is a permanent failure that promises no further attempt.
pub schedule_retry_outcome :
    (now : ℕ) (pp old : PlatformPost) (message : UserText) (retry_at : Option ℕ) (db : Store)
    → find pp.id db.rows ≡ some old
    → (pp.retry_count < max_retries
        → (find pp.id (schedule_retry now pp message retry_at db).rows
            ≡ some (parked now pp message retry_at))
          × ((other : ℕ)
              → other ≢ pp.id
              → find other (schedule_retry now pp message retry_at db).rows ≡ find other db.rows)
          × ((schedule_retry now pp message retry_at db).told ≡ db.told)
          × (pp.retry_count + 1 ≤ max_retries)
          × (now < next_attempt now pp.retry_count retry_at))
      × (max_retries ≤ pp.retry_count
          → schedule_retry now pp message retry_at db
            ≡ fail_permanently now pp (exhausted_publish_message message) db)
unfolding schedule_retry
schedule_retry_outcome now pp old message retry_at db found = (
  λ left. rw (budget_left pp.retry_count left) (
    find-save_self now _ db.rows old found,
    λ other n. find-save_ne now _ other db.rows n,
    refl,
    omega arith,
    next_attempt-lt now pp.retry_count retry_at,
  ),
  λ spent. ground arith,
)
