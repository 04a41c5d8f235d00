-- ===== src/Publisher/FirstComment.antt =====
-- The first comment of apps/publisher/engine.py: the task, its failure path and its success path,
-- as a step on the row. What the platform answers during one run of the task is an `Answers`.
pub mod Run
pub mod Once
use ai_social_brightbean_stu.Common.{
  ℕ, zero, suc, ◌+◌, ◌*◌, ◌-◌, ◌/◌, String, Bool, true, false, not, ◌&&◌, ◌||◌, Option, none, some,
  List, [], ◌∷◌, ltb, leb, ◌==◌, if◌then◌else◌, max,
}
use ai_social_brightbean_stu.Providers.Exceptions.{ProviderException, second, is_rate_limit}
use ai_social_brightbean_stu.SocialAccounts.ErrorMessages.{
  UserText, first_comment_no_handle, friendly_first_comment_error,
}
use ai_social_brightbean_stu.Composer.PlatformPost.{
  PlatformPost, Post, FirstCommentStatus, pending, posted, comment_failed, effective_first_comment,
}

-- `find_own_comment`; `absent` is also the provider that has no such lookup.
pub data Lookup : Type 0 where
  present : Option String → Lookup
  absent : Lookup
  lookup_raised : ProviderException → Lookup

-- `publish_comment`
pub data Submission : Type 0 where
  created : Option String → Submission
  unsupported : Submission
  submit_raised : ProviderException → Submission

pub record Answers : Type 0 where
  -- The exception of `_provider_and_access_token`, if it raises.
  pub client_error : Option ProviderException
  pub lookup : Lookup
  pub submission : Submission
  -- `_can_reconcile_comments`
  pub can_reconcile : Bool

-- `FIRST_COMMENT_MAX_RETRIES` where no setting is given.
abbrev pub first_comment_max_retries : ℕ
first_comment_max_retries = 3

unfoldable pub first_comment_backoff : ℕ → ℕ
first_comment_backoff zero = 120 * second
first_comment_backoff (suc zero) = 600 * second
first_comment_backoff _ = 1800 * second

-- Whole seconds, rounded up.
abbrev ceil_seconds : ℕ → ℕ
ceil_seconds t = (t + (second - 1)) / second * second

ladder_or : Option ℕ → ℕ → ℕ
unfolding first_comment_backoff
ladder_or none count = first_comment_backoff count
ladder_or (some zero) count = first_comment_backoff count
ladder_or (some (suc s)) count = suc s * second

-- The delay before the task runs again.
unfoldable pub comment_delay : ℕ → ℕ → Option ℕ → Option ℕ → ℕ
unfolding ladder_or
comment_delay now count retry_after none = ladder_or retry_after count
comment_delay now count retry_after (some retry_at) = max second (ceil_seconds (retry_at - now))

-- A run's effect: the row, the delay of the task that it queued again, and whether it submitted.
pub record Effect : Type 0 where
  pub row : PlatformPost
  pub requeued : Option ℕ
  pub submitted : Bool

-- `_record_first_comment_failure`
unfoldable pub record_failure :
    ℕ → PlatformPost → UserText → Bool → Option ℕ → Option ℕ → Bool → Effect
record_failure now row message retryable retry_after retry_at submitted =
    if not retryable || leb first_comment_max_retries row.first_comment_retry_count
    then record {
      row = record row {
        first_comment_status = comment_failed;
        first_comment_error = some message;
      };
      requeued = none;
      submitted = submitted;
    }
    else record {
      row = record row {
        first_comment_status = pending;
        first_comment_error = some message;
        first_comment_retry_count = row.first_comment_retry_count + 1;
      };
      requeued = some (comment_delay now row.first_comment_retry_count retry_after retry_at);
      submitted = submitted;
    }

-- `_mark_first_comment_posted`
unfoldable pub mark_posted : ℕ → PlatformPost → Option String → Bool → Effect
mark_posted now row comment_id submitted = record {
  row = record row {
    first_comment_status = posted;
    first_comment_id = comment_id;
    first_comment_error = none;
    first_comment_posted_at = some now;
  };
  requeued = none;
  submitted = submitted;
}

abbrev is_unknown_outcome : Option ℕ → Bool
is_unknown_outcome none = true
is_unknown_outcome (some status) = leb 500 status

abbrev is_401 : Option ℕ → Bool
is_401 none = false
is_401 (some status) = status == 401

-- `_is_ambiguous_submission_failure`
unfoldable pub is_ambiguous : ProviderException → Bool
is_ambiguous e = not (is_rate_limit e.kind) && is_unknown_outcome e.status_code

-- `_is_retryable_first_comment_failure`
unfoldable pub is_retryable : ProviderException → Bool
is_retryable e =
    e.retryable
    && (is_rate_limit e.kind || (is_unknown_outcome e.status_code || is_401 e.status_code))

-- An ambiguous failure may be sent again only where the comment can be looked up first.
unfoldable pub submit_again : ProviderException → Bool → Bool
submit_again e can_reconcile = is_retryable e && not (is_ambiguous e && not can_reconcile)

unfoldable pub submit : ℕ → Answers → PlatformPost → Submission → Effect
submit now a row (created comment_id) = mark_posted now row comment_id true
submit now a row unsupported = record { row = row; requeued = none; submitted = false }
submit now a row (submit_raised e) =
    record_failure now row (friendly_first_comment_error e now) (submit_again e a.can_reconcile)
      e.retry_after e.resets_at true

unfoldable pub reconcile : ℕ → Answers → PlatformPost → Lookup → Effect
reconcile now a row (present (some comment_id)) = mark_posted now row (some comment_id) false
reconcile now a row (present none) = submit now a row a.submission
reconcile now a row absent = submit now a row a.submission
reconcile now a row (lookup_raised e) =
    record_failure now row (friendly_first_comment_error e now) true e.retry_after e.resets_at false

-- Only a run after a failed one looks the comment up before it submits.
unfoldable pub with_client : ℕ → Answers → PlatformPost → Effect
with_client now a row =
    if ltb 0 row.first_comment_retry_count
    then reconcile now a row a.lookup
    else submit now a row a.submission

on_client : ℕ → Answers → PlatformPost → Option ProviderException → Effect
on_client now a row none = with_client now a row
on_client now a row (some e) =
    record_failure now row (friendly_first_comment_error e now) e.retryable e.retry_after
      e.resets_at false

abbrev idle : PlatformPost → Effect
idle row = record { row = row; requeued = none; submitted = false }

on_handle : ℕ → Answers → PlatformPost → Option String → Effect
unfolding on_client
on_handle now a row none = record_failure now row first_comment_no_handle false none none false
on_handle now a row (some handle) = on_client now a row a.client_error

on_text : ℕ → Answers → PlatformPost → Option String → Effect
unfolding on_handle
on_text now a row none = idle row
on_text now a row (some comment) = on_handle now a row row.platform_post_id

on_status : ℕ → Answers → Post → PlatformPost → FirstCommentStatus → Effect
unfolding on_text
on_status now a post row posted = idle row
on_status now a post row _ = on_text now a row (effective_first_comment row post)

-- `_post_first_comment_task`
unfoldable pub post_first_comment : ℕ → Answers → Post → PlatformPost → Effect
unfolding on_status
post_first_comment now a post row = on_status now a post row row.first_comment_status
