-- ===== src/Examples/Confirming.antt =====
-- The confirmation sweep, the choice of an endpoint and the first comment on concrete rows.
use ai_social_brightbean_stu.Common.{ℕ, ◌*◌, ◌≡◌, ◌≤◌, refl, true, false, none, some, arith}
use ai_social_brightbean_stu.Providers.Exceptions.{second}
use ai_social_brightbean_stu.Composer.Status.{published}
use ai_social_brightbean_stu.Composer.PlatformPost.{PlatformPost, effective_first_comment}
use ai_social_brightbean_stu.Composer.Rows.{find}
use ai_social_brightbean_stu.Publisher.Store.{default_config}
use ai_social_brightbean_stu.Publisher.Confirm.{complete, reported, confirm_one_publish}
use ai_social_brightbean_stu.Publisher.Confirm.Settling.{Outcome, confirm-Outcome}
use ai_social_brightbean_stu.Publisher.FirstComment.{
  present, submit_raised, created, Answers, first_comment_max_retries, post_first_comment,
  with_client, submit, submit_again, is_retryable, is_ambiguous, record_failure, comment_delay,
  first_comment_backoff,
}
use ai_social_brightbean_stu.Publisher.FirstComment.Once.{
  Waiting, first, again, IsTruthful, comments_after, at_most_one_comment,
}
use ai_social_brightbean_stu.Examples.Data.{out, announcement, table-IsKeyed, db, server_error}

confirm-Outcome_example :
    Outcome out db
      (reported complete none none)
      (confirm_one_publish 500 default_config out (reported complete none none) db)
confirm-Outcome_example =
    confirm-Outcome 500 default_config out db table-IsKeyed (unfold find in refl) refl
      (reported complete none none)

abbrev uploaded : PlatformPost
uploaded = record out { platform_post_id = some "h" }

-- The comment's row, live on the platform under a handle.
abbrev live : PlatformPost
live = record out { status = published; platform_post_id = some "p1" }

-- The first run times out, and the comment is there after all.
abbrev timed_out : Answers
timed_out = record {
  client_error = none;
  lookup = present none;
  submission = submit_raised server_error;
  can_reconcile = true;
}

abbrev found_again : Answers
found_again = record {
  client_error = none;
  lookup = present (some "c1");
  submission = created (some "c2");
  can_reconcile = true;
}

timed_out_requeues :
    (post_first_comment 500 timed_out (announcement 7) live).requeued ≡ some (120 * second)
unfolding post_first_comment with_client submit submit_again is_retryable is_ambiguous
    record_failure comment_delay effective_first_comment first_comment_backoff
timed_out_requeues = refl

first_run_IsTruthful : IsTruthful true 0 timed_out true
first_run_IsTruthful = record {
  same_provider = refl;
  finds = λ r few. absurd (ground arith);
  refused = λ l. (refl, refl);
}

run_again :
    Waiting (announcement 7) true (post_first_comment 500 timed_out (announcement 7) live).row (
      comments_after 0
        (post_first_comment 500 timed_out (announcement 7) live)
        timed_out.submission
        true)
run_again =
    again (first live refl) 500 (120 * second) timed_out true first_run_IsTruthful
      timed_out_requeues

second_run_IsTruthful : (comments : ℕ) → IsTruthful true comments found_again false
second_run_IsTruthful comments = record {
  same_provider = refl;
  finds = λ r few. (λ e. ground arith, λ e. ground arith);
  refused = tt;
}

abbrev retried_comment : PlatformPost
retried_comment = (post_first_comment 500 timed_out (announcement 7) live).row

abbrev comments_out : ℕ
comments_out =
    comments_after 0 (post_first_comment 500 timed_out (announcement 7) live) timed_out.submission
      true

at_most_one_comment_example :
    (comments_after comments_out
        (post_first_comment (130 * second) found_again (announcement 7) retried_comment)
        found_again.submission
        false
      ≤ 1)
    × (retried_comment.first_comment_retry_count ≤ first_comment_max_retries)
at_most_one_comment_example =
    at_most_one_comment (announcement 7) true retried_comment comments_out (130 * second)
      found_again false run_again (second_run_IsTruthful comments_out)
