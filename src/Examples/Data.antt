-- ===== src/Examples/Data.antt =====
-- A small table: row 1 is out for publication, row 2 waits for its time, row 3 was sent back to draft.
use ai_social_brightbean_stu.Common.{ℕ, true, false, none, some, [], ◌∷◌, refl}
use ai_social_brightbean_stu.Providers.Exceptions.{ProviderException, api_error}
use ai_social_brightbean_stu.Composer.Status.{Status, draft, scheduled, publishing}
use ai_social_brightbean_stu.Composer.PlatformPost.{PlatformPost, Post, none_requested}
use ai_social_brightbean_stu.Composer.Rows.{Rows, find}
use ai_social_brightbean_stu.Composer.Rows.Laws.{IsKeyed}
use ai_social_brightbean_stu.Publisher.Store.{Store}
use ai_social_brightbean_stu.Publisher.Publish.{Attempt, Dispatch, stored}

abbrev pub new_row : ℕ → ℕ → Status → PlatformPost
new_row id post_id status = record {
  id = id;
  post_id = post_id;
  social_account = 3;
  status = status;
  platform_post_id = none;
  publish_error = none;
  published_at = none;
  first_comment_override = none;
  first_comment_status = none_requested;
  first_comment_id = none;
  first_comment_error = none;
  first_comment_retry_count = 0;
  first_comment_posted_at = none;
  scheduled_at = some 100;
  retry_count = 0;
  next_retry_at = none;
  updated_at = 100;
}

abbrev pub out : PlatformPost
out = new_row 1 7 publishing

abbrev pub waiting : PlatformPost
waiting = new_row 2 8 scheduled

-- Loaded by the retry loop, and what the table has for it by its turn.
abbrev pub retried : PlatformPost
retried = record (new_row 3 9 scheduled) { retry_count = 1; next_retry_at = some 150 }

abbrev pub withdrawn : PlatformPost
withdrawn = record retried { status = draft }

abbrev pub announcement : ℕ → Post
announcement key = record {
  id = key;
  workspace = 5;
  author = some 11;
  first_comment = some "More in the link";
  scheduled_at = some 100;
  proposed_publish_at = none;
  published_at = none;
  updated_at = 100;
}

abbrev pub table : Rows
table = out ∷ waiting ∷ withdrawn ∷ []

abbrev pub db : Store
db = record { rows = table; post_of = announcement; logs = []; queue = []; tasks = []; told = [] }

pub table-IsKeyed : IsKeyed table
unfolding find
table-IsKeyed = (refl, (refl, (refl, tt)))

abbrev pub server_error : ProviderException
server_error = record {
  kind = api_error;
  status_code = some 503;
  expired_code = false;
  retryable = true;
  resets_at = none;
  retry_after = none;
  prose = none;
}

abbrev pub attempt : Dispatch → Attempt
attempt dispatch = record {
  rate_state = none;
  dispatch = dispatch;
  loaded_token = "t";
  token = stored "t" (some 9000);
  log_written = true;
  error_log_written = true;
}
