-- ===== src/Publisher/Store.antt =====
-- What the engine keeps: the rows, their posts, and the records that a publish leaves behind.
use ai_social_brightbean_stu.Common.{
  ℕ, Bool, true, false, not, ◌&&◌, Option, none, some, List, [], ◌∷◌, ◌==◌, if◌then◌else◌, filter,
  max, ◌*◌, is_some,
}
use ai_social_brightbean_stu.Providers.Exceptions.{second}
use ai_social_brightbean_stu.Composer.Status.{◌is◌, published}
use ai_social_brightbean_stu.Composer.PlatformPost.{
  PlatformPost, Post, FirstCommentStatus, pending, posted, effective_first_comment,
}
use ai_social_brightbean_stu.Composer.Rows.{Rows, siblings, update}

-- `PublishLog`: the row, the attempt, and whether the attempt was a success.
pub record LogEntry : Type 0 where
  pub platform_post : ℕ
  pub attempt_number : ℕ
  pub succeeded : Bool

-- `QueueEntry`, by the post and the account of its queue.
pub record QueueHold : Type 0 where
  pub post_id : ℕ
  pub social_account : ℕ

-- A queued `_post_first_comment_task` with its delay in microseconds.
pub record CommentTask : Type 0 where
  pub platform_post : ℕ
  pub schedule : ℕ

pub record Store : Type 0 where
  pub rows : Rows
  pub post_of : ℕ → Post
  pub logs : List LogEntry
  pub queue : List QueueHold
  pub tasks : List CommentTask
  -- Rows of whose failure the author was told, the latest first.
  pub told : List ℕ

-- What the engine reads of the settings and of the accounts: the timeouts and the comment delay in
-- microseconds, and `supports_first_comment()`.
pub record Config : Type 0 where
  pub stale_publishing_timeout : ℕ
  pub publish_confirm_timeout : ℕ
  pub publish_unconfirmed_timeout : ℕ
  pub first_comment_delay : ℕ → ℕ
  pub supports_first_comment : ℕ → Bool

-- `_stale_publishing_timeout` and the others, where no setting is given.
abbrev pub default_config : Config
default_config = record {
  stale_publishing_timeout = 900 * second;
  publish_confirm_timeout = 1800 * second;
  publish_unconfirmed_timeout = 6 * 3600 * second;
  first_comment_delay = λ workspace. 120 * second;
  supports_first_comment = λ account. true;
}

later : Option ℕ → Option ℕ → Option ℕ
later none b = b
later (some a) none = some a
later (some a) (some b) = some (max a b)

-- The greatest `published_at` of the rows that have one.
unfoldable pub latest_published : Rows → Option ℕ
unfolding later
latest_published [] = none
latest_published (row ∷ rows) = later row.published_at (latest_published rows)

set_post : Post → (ℕ → Post) → ℕ → Post
set_post post post_of key = if key == post.id then post else post_of key

stamp_post : ℕ → Option ℕ → (ℕ → Post) → ℕ → Post
unfolding set_post
stamp_post key none post_of = post_of
stamp_post key (some latest) post_of =
    set_post (record (post_of key) { id = key; published_at = some latest }) post_of

-- `_sync_parent_published_at`; writing a value that is already there changes nothing.
unfoldable pub sync_parent_published_at : ℕ → Store → Store
unfolding latest_published stamp_post
sync_parent_published_at key db = record db {
  post_of = stamp_post key (latest_published (siblings key db.rows)) db.post_of;
}

-- `_drop_queue_entry`
unfoldable pub drop_queue_entry : PlatformPost → Store → Store
drop_queue_entry pp db = record db {
  queue =
      filter (λ q. not (q.post_id == pp.post_id && q.social_account == pp.social_account)) db.queue;
}

wants_comment : FirstCommentStatus → Bool
wants_comment pending = false
wants_comment posted = false
wants_comment _ = true

-- The early returns of `_maybe_schedule_first_comment`.
unfoldable pub needs_comment : Config → PlatformPost → Store → Bool
unfolding wants_comment
needs_comment config pp db =
    pp.status is published
    && config.supports_first_comment pp.social_account
    && is_some (effective_first_comment pp (db.post_of pp.post_id))
    && wants_comment pp.first_comment_status

abbrev pub mark_pending : PlatformPost → PlatformPost
mark_pending row = record row { first_comment_status = pending }

-- `_maybe_schedule_first_comment`: the task first, the mark on the row after it.
unfoldable pub maybe_schedule_first_comment : Config → PlatformPost → Store → Store
maybe_schedule_first_comment config pp db =
    if needs_comment config pp db
    then record db {
      tasks =
          record {
            platform_post = pp.id;
            schedule = config.first_comment_delay (db.post_of pp.post_id).workspace;
          }
          ∷ db.tasks;
      rows = update pp.id (λ _. true) mark_pending db.rows;
    }
    else db
