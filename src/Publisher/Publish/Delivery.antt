-- ===== src/Publisher/Publish/Delivery.antt =====
-- What an attempt leaves when the platform took the post, and what decides between a retry and a
-- permanent failure when it raised.
use ai_social_brightbean_stu.Common.{
  ℕ, ◌+◌, ◌*◌, ◌≡◌, refl, String, Bool, true, false, Option, some, arith,
}
use ai_social_brightbean_stu.Providers.Exceptions.{second}
use ai_social_brightbean_stu.SocialAccounts.ErrorMessages.{
  friendly_publish_error, is_credential_rejection,
}
use ai_social_brightbean_stu.Composer.Status.{scheduled}
use ai_social_brightbean_stu.Composer.PlatformPost.{PlatformPost}
use ai_social_brightbean_stu.Composer.Rows.{find, save}
use ai_social_brightbean_stu.Composer.Rows.Laws.{find-save_self}
use ai_social_brightbean_stu.Publisher.Store.{Store, drop_queue_entry}
use ai_social_brightbean_stu.Publisher.Failure.{next_attempt, schedule_retry}
use ai_social_brightbean_stu.Publisher.Publish.{
  Attempt, delivered, success, database_error, refused_a_live_token, limited_now, on_exception,
  on_delivery, on_dispatch, delivered_copy, publish_platform_post,
}

-- The delivered copy, sent back to the retry queue.
abbrev requeued_copy : ℕ → Option String → Bool → PlatformPost → PlatformPost
requeued_copy now handle async pp = record (delivered_copy now handle async pp) {
  retry_count = 1;
  next_retry_at = some (now + 60 * second);
  status = scheduled;
  publish_error = some (friendly_publish_error database_error now);
}

module _ (now : ℕ) (a : Attempt) (pp old : PlatformPost) (db : Store) (handle : Option String)
    (async : Bool) (free : limited_now a.rate_state now ≡ false)
    (sent : a.dispatch ≡ delivered handle async) (found : find pp.id db.rows ≡ some old) where
  after_delivery : publish_platform_post now a pp db ≡ on_delivery now a pp handle async db
  unfolding publish_platform_post on_dispatch
  after_delivery = simp (free, sent)

  rows_delivered :
      a.log_written ≡ true
      → (on_delivery now a pp handle async db).0.rows
        ≡ save now (delivered_copy now handle async pp) db.rows
  unfolding on_delivery drop_queue_entry
  rows_delivered w = ground arith

  reply_delivered : a.log_written ≡ true → (on_delivery now a pp handle async db).1 ≡ success async
  unfolding on_delivery
  reply_delivered w = ground arith

  told_delivered : a.log_written ≡ true → (on_delivery now a pp handle async db).0.told ≡ db.told
  unfolding on_delivery drop_queue_entry
  told_delivered w = ground arith

  -- The row after a delivery that went unlogged: it waits for another attempt.
  rows_unlogged :
      a.log_written ≡ false
      → a.error_log_written ≡ true
      → (on_delivery now a pp handle async db).0.rows
        ≡ save now
            (requeued_copy now handle async pp)
            (save now (delivered_copy now handle async pp) db.rows)
  unfolding on_delivery on_exception refused_a_live_token is_credential_rejection schedule_retry
      next_attempt drop_queue_entry
  rows_unlogged w v = ground arith

-- A delivery that is logged is final for the copy: the row holds the platform's handle, a cleared
-- retry budget and error, and the status `published` with its instant, or `publishing` where the
-- platform only took the upload; the method reports success and the author hears of no failure.
pub delivery_settles :
    (now : ℕ) (a : Attempt) (pp old : PlatformPost) (db : Store) (handle : Option String)
    (async : Bool)
    → limited_now a.rate_state now ≡ false
    → a.dispatch ≡ delivered handle async
    → find pp.id db.rows ≡ some old
    → a.log_written ≡ true
    → (find pp.id (publish_platform_post now a pp db).0.rows
        ≡ some (record (delivered_copy now handle async pp) { updated_at = now }))
      × ((publish_platform_post now a pp db).1 ≡ success async)
      × ((publish_platform_post now a pp db).0.told ≡ db.told)
delivery_settles now a pp old db handle async free sent found w =
    rw (after_delivery now a pp old db handle async free sent found) (
      rw (rows_delivered now a pp old db handle async free sent found w)
          (find-save_self now (delivered_copy now handle async pp) db.rows old found),
      reply_delivered now a pp old db handle async free sent found w,
      told_delivered now a pp old db handle async free sent found w,
    )

-- A post that the platform has published is queued to be published again when the log of the
-- success cannot be written: the row is `scheduled` one minute ahead, still with the handle of the
-- post that is live.
pub unlogged_delivery_requeues :
    (now : ℕ) (a : Attempt) (pp old : PlatformPost) (db : Store) (handle : Option String)
    (async : Bool)
    → limited_now a.rate_state now ≡ false
    → a.dispatch ≡ delivered handle async
    → find pp.id db.rows ≡ some old
    → a.log_written ≡ false
    → a.error_log_written ≡ true
    → (row : PlatformPost) × (find pp.id (publish_platform_post now a pp db).0.rows ≡ some row)
      × (row.status ≡ scheduled)
      × (row.next_retry_at ≡ some (now + 60 * second))
      × (row.platform_post_id ≡ handle)
unlogged_delivery_requeues now a pp old db handle async free sent found w v =
    let copy = delivered_copy now handle async pp in
    let again = requeued_copy now handle async pp in
    (
      record again { updated_at = now },
      rw (after_delivery now a pp old db handle async free sent found) (
          rw (rows_unlogged now a pp old db handle async free sent found w v) (
            find-save_self now again (save now copy db.rows) (record copy { updated_at = now })
              (find-save_self now copy db.rows old found))),
      refl,
      refl,
      refl,
    )
