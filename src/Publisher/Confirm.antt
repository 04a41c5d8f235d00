-- ===== src/Publisher/Confirm.antt =====
-- `confirm_pending_publishes` of apps/publisher/engine.py: the sweep over the rows in `publishing`.
-- What the account's provider answers for one row is an `Answer`.
pub mod Settling
use ai_social_brightbean_stu.Common.{
  ℕ, ◌+◌, String, Bool, true, false, Option, none, some, List, [], ◌∷◌, ltb, if◌then◌else◌, filter,
  or_else,
}
use ai_social_brightbean_stu.SocialAccounts.ErrorMessages.{
  UserText, publish_generic, publish_interrupted, publish_confirm_timeout, publish_unconfirmed,
  authored,
}
use ai_social_brightbean_stu.Composer.Status.{publishing, published, ◌is◌}
use ai_social_brightbean_stu.Composer.PlatformPost.{PlatformPost}
use ai_social_brightbean_stu.Composer.Rows.{Rows, save}
use ai_social_brightbean_stu.Publisher.Store.{
  Store, Config, drop_queue_entry, sync_parent_published_at, maybe_schedule_first_comment,
}
use ai_social_brightbean_stu.Publisher.Failure.{fail_permanently}

-- `PublishState`
pub data PublishState : Type 0 where
  complete state_pending state_failed inbox : PublishState

-- `no_provider`: the client or its token could not be built. `synchronous`: the platform has no
-- status endpoint. `not_implemented`: an asynchronous provider without one. `unreachable`: the
-- status call raised. `reported`: the state with the post's id and the error, if any.
pub data Answer : Type 0 where
  no_provider synchronous not_implemented unreachable : Answer
  reported : PublishState → Option String → Option String → Answer

-- `updated_at < now - timeout`, with the sum on the other side.
abbrev pub is_older : ℕ → ℕ → PlatformPost → Bool
is_older timeout now pp = ltb (pp.updated_at + timeout) now

give_up : ℕ → ℕ → UserText → PlatformPost → Store → Store × Bool
give_up now timeout message pp db =
    if is_older timeout now pp then (fail_permanently now pp message db, true) else (db, false)

abbrev pub confirmed_copy : ℕ → Option String → PlatformPost → PlatformPost
confirmed_copy now handle pp = record pp {
  platform_post_id = handle;
  status = published;
  published_at = some now;
  publish_error = none;
}

-- The row, its queue slot and its post, before the first comment is queued.
unfoldable pub settle_confirmed : ℕ → PlatformPost → Store → Store
settle_confirmed now copy db =
    sync_parent_published_at copy.post_id
      (drop_queue_entry copy (record db { rows = save now copy db.rows }))

-- `_mark_confirmed_published`
unfoldable pub mark_confirmed_published : ℕ → Config → PlatformPost → Option String → Store → Store
mark_confirmed_published now config pp handle db =
    let copy = confirmed_copy now handle pp in
    maybe_schedule_first_comment config copy (settle_confirmed now copy db)

-- `status.error or PUBLISH_GENERIC_MESSAGE`
refusal : Option String → UserText
refusal none = publish_generic
refusal (some sentence) = authored sentence

on_answer : ℕ → Config → PlatformPost → Answer → Store → Store × Bool
unfolding give_up refusal
on_answer now config pp no_provider db = (db, false)
on_answer now config pp synchronous db =
    give_up now config.stale_publishing_timeout publish_interrupted pp db
on_answer now config pp not_implemented db =
    give_up now config.publish_unconfirmed_timeout publish_unconfirmed pp db
on_answer now config pp unreachable db =
    give_up now config.publish_unconfirmed_timeout publish_unconfirmed pp db
on_answer now config pp (reported complete post_id error) db =
    (mark_confirmed_published now config pp (or_else post_id pp.platform_post_id) db, true)
on_answer now config pp (reported state_failed post_id error) db =
    (fail_permanently now pp (refusal error) db, true)
on_answer now config pp (reported inbox post_id error) db =
    (fail_permanently now pp (refusal error) db, true)
on_answer now config pp (reported state_pending post_id error) db =
    give_up now config.publish_confirm_timeout publish_confirm_timeout pp db

on_handle : Option String → ℕ → Config → PlatformPost → Answer → Store → Store × Bool
unfolding on_answer
on_handle none now config pp answer db =
    give_up now config.stale_publishing_timeout publish_interrupted pp db
on_handle (some handle) now config pp answer db = on_answer now config pp answer db

-- `_confirm_one_publish`
unfoldable pub confirm_one_publish : ℕ → Config → PlatformPost → Answer → Store → Store × Bool
unfolding on_handle
confirm_one_publish now config pp answer db = on_handle pp.platform_post_id now config pp answer db

unfoldable pub confirm_each : ℕ → Config → (ℕ → Answer) → Rows → Store → Store
confirm_each now config answers [] db = db
confirm_each now config answers (pp ∷ pps) db =
    confirm_each now config answers pps (confirm_one_publish now config pp (answers pp.id) db).0

-- `confirm_pending_publishes`, without the count that it returns.
unfoldable pub confirm_pending_publishes : ℕ → Config → (ℕ → Answer) → Store → Store
confirm_pending_publishes now config answers db =
    confirm_each now config answers (filter (λ row. row.status is publishing) db.rows) db
