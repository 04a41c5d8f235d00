-- ===== src/Publisher/Cycle.antt =====
-- One cycle of `PublishEngine`: the due query, the claim of a post's rows under lock, the publish of
-- a group, and the retry loop. The platform threads of a group touch one row each; the model takes
-- them one after another, in any order that `answers` is given for.
pub mod Due
pub mod Claim
pub mod Retry
pub mod Attempts
use ai_social_brightbean_stu.Common.{
  ◌+◌, ℕ, ◌+◌, Bool, true, false, not, ◌&&◌, ◌||◌, Option, none, some, List, [], ◌∷◌, ltb, leb,
  ◌==◌, if◌then◌else◌, filter, any, take, sort_by, le_some, gt_some, is_some,
}
use ai_social_brightbean_stu.Composer.Status.{scheduled, publishing, published, on_hold, ◌is◌}
use ai_social_brightbean_stu.Composer.PlatformPost.{PlatformPost, Post, effective_at}
use ai_social_brightbean_stu.Composer.Rows.{Rows, find, update, siblings, is_held}
use ai_social_brightbean_stu.Publisher.Store.{
  Store, Config, sync_parent_published_at, maybe_schedule_first_comment,
}
use ai_social_brightbean_stu.Publisher.Failure.{max_retries}
use ai_social_brightbean_stu.Publisher.Publish.{
  Attempt, Reply, success, failure, escaped, publish_platform_post,
}

-- The tests of `_get_due_platform_posts` on one row.
unfoldable pub is_due : ℕ → Store → PlatformPost → Bool
is_due now db row =
    row.status is scheduled
    && le_some (effective_at row (db.post_of row.post_id)) now
    && not (ltb 0 row.retry_count && gt_some row.next_retry_at now)
    && not (is_held row.post_id db.rows)

abbrev pub or_zero : Option ℕ → ℕ
or_zero none = 0
or_zero (some t) = t

-- The sort key; a due row has one.
abbrev pub due_time : Store → PlatformPost → ℕ
due_time db row = or_zero (effective_at row (db.post_of row.post_id))

-- `_get_due_platform_posts`; `limit` is `_max_concurrent_publishes()`.
unfoldable pub get_due_platform_posts : ℕ → ℕ → Store → Rows
get_due_platform_posts limit now db =
    take limit (sort_by (due_time db) (filter (is_due now db) db.rows))

-- The ids of the rows that the group was given.
abbrev pub is_listed : Rows → PlatformPost → Bool
is_listed due row = any (λ d. d.id == row.id) due

-- The rows that the locked read lets the group take.
unfoldable pub claimable : ℕ → Rows → Rows → Rows
claimable post_id due rows =
    filter (λ row. row.post_id == post_id && (is_listed due row && row.status is scheduled)) rows

abbrev pub set_publishing : ℕ → PlatformPost → PlatformPost
set_publishing now row = record row { status = publishing; updated_at = now }

-- The update to `publishing` of the rows whose ids were claimed.
unfoldable pub mark_publishing : ℕ → Rows → Rows → Rows
mark_publishing now claimed [] = []
mark_publishing now claimed (row ∷ rows) =
    (if is_listed claimed row then set_publishing now row else row)
    ∷ mark_publishing now claimed rows

-- The transaction at the head of `_publish_post_group`: the rows as they were read under the lock,
-- and the table after it. Nothing is claimed while a row of the post is on hold.
unfoldable pub claim : ℕ → ℕ → Rows → Rows → Rows × Rows
claim now post_id due rows =
    if is_held post_id rows
    then ([], rows)
    else (claimable post_id due rows, mark_publishing now (claimable post_id due rows) rows)

-- One attempt for each claimed row, with what is answered to it.
unfoldable pub publish_each : ℕ → (ℕ → Attempt) → Rows → Store → Store
publish_each now answers [] db = db
publish_each now answers (pp ∷ pps) db =
    publish_each now answers pps (publish_platform_post now (answers pp.id) pp db).0

comment_for : Config → Option PlatformPost → Store → Store
comment_for config none db = db
comment_for config (some row) db = maybe_schedule_first_comment config row db

-- The rows are read again, and each that was published gets its first comment queued.
schedule_comments : Config → Rows → Store → Store
unfolding comment_for
schedule_comments config [] db = db
schedule_comments config (pp ∷ pps) db =
    schedule_comments config pps (comment_for config (find pp.id db.rows) db)

finish_group : ℕ → Config → (ℕ → Attempt) → ℕ → Rows → Store → Store
unfolding schedule_comments
finish_group now config answers post_id claimed db =
    schedule_comments config claimed
      (sync_parent_published_at post_id (publish_each now answers claimed db))

-- `_publish_post_group`
unfoldable pub publish_post_group : ℕ → Config → (ℕ → Attempt) → ℕ → Rows → Store → Store × Bool
unfolding finish_group
publish_post_group now config answers post_id due db =
    let (claimed, rows) = claim now post_id due db.rows in
    elim claimed [
      | [] ↦ (db, false)
      | pp ∷ pps ↦
          (finish_group now config answers post_id (pp ∷ pps) (record db { rows = rows }), true)
    ]

-- The tests of `_process_retries` on one row.
unfoldable pub is_due_for_retry : ℕ → Store → PlatformPost → Bool
is_due_for_retry now db row =
    row.status is scheduled
    && ltb 0 row.retry_count
    && leb row.retry_count max_retries
    && le_some row.next_retry_at now
    && not (is_held row.post_id db.rows)

after_retry : Config → PlatformPost → Store × Reply → Store
after_retry config pp (db, success true) = db
after_retry config pp (db, success false) =
    maybe_schedule_first_comment config (record pp { status = published })
      (sync_parent_published_at pp.post_id db)
after_retry config pp (db, _) = db

-- The body of the loop of `_process_retries`, for the copy `pp` that the query loaded.
unfoldable pub retry_one : ℕ → Config → (ℕ → Attempt) → PlatformPost → Store → Store
unfolding after_retry
retry_one now config answers pp db =
    if is_held pp.post_id db.rows
    then db
    else after_retry config (set_publishing now pp) (
        publish_platform_post now (answers pp.id) (set_publishing now pp)
          (record db { rows = update pp.id (λ _. true) (set_publishing now) db.rows }))

retry_each : ℕ → Config → (ℕ → Attempt) → Rows → Store → Store
retry_each now config answers [] db = db
retry_each now config answers (pp ∷ pps) db =
    retry_each now config answers pps (retry_one now config answers pp db)

-- `_process_retries`
unfoldable pub process_retries : ℕ → Config → (ℕ → Attempt) → Store → Store
unfolding retry_each
process_retries now config answers db =
    retry_each now config answers (filter (is_due_for_retry now db) db.rows) db

-- The posts of the due rows, in the order in which the first row of each comes.
posts_of : Rows → List ℕ
posts_of [] = []
posts_of (row ∷ rows) = row.post_id ∷ filter (λ key. not (key == row.post_id)) (posts_of rows)

publish_groups : ℕ → Config → (ℕ → Attempt) → Rows → List ℕ → Store → Store × ℕ
publish_groups now config answers due [] db = (db, 0)
publish_groups now config answers due (key ∷ keys) db =
    let (after, dispatched) =
      publish_post_group now config answers key (filter (λ row. row.post_id == key) due) db in
    let (last, groups) = publish_groups now config answers due keys after in
    (last, if dispatched then groups + 1 else groups)

-- `poll_and_publish`, with the number of groups that dispatched something.
unfoldable pub poll_and_publish : ℕ → ℕ → Config → (ℕ → Attempt) → Store → Store × ℕ
unfolding posts_of publish_groups
poll_and_publish limit now config answers db =
    let due = get_due_platform_posts limit now db in
    let (after, groups) = publish_groups now config answers due (posts_of due) db in
    (process_retries now config answers after, groups)
