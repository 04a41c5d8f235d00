-- ===== src/Publisher/Cycle/Retry.antt =====
-- What the retry loop does to a row that has moved on since the loop's query loaded it.
use ai_social_brightbean_stu.Common.{
  ℕ, ◌≡◌, refl, ap, ◌∙◌, String, true, false, Option, some, arith,
}
use ai_social_brightbean_stu.Composer.Status.{published}
use ai_social_brightbean_stu.Composer.PlatformPost.{PlatformPost}
use ai_social_brightbean_stu.Composer.Rows.{find, update, is_held}
use ai_social_brightbean_stu.Composer.Rows.Laws.{updated, find-update_self}
use ai_social_brightbean_stu.Publisher.Store.{Store, Config, sync_parent_published_at}
use ai_social_brightbean_stu.Publisher.Publish.{
  Attempt, delivered, Reply, success, failure, escaped, limited_now,
}
use ai_social_brightbean_stu.Publisher.Publish.Delivery.{delivery_settles}
use ai_social_brightbean_stu.Publisher.Confirm.Settling.{HasStatus, status-maybe_schedule}
use ai_social_brightbean_stu.Publisher.Cycle.{set_publishing, after_retry, retry_one}

after_success :
    (config : Config) (pp : PlatformPost) (db : Store) (reply : Reply)
    → reply ≡ success false
    → HasStatus pp.id published db
    → HasStatus pp.id published (after_retry config pp (db, reply))
unfolding after_retry sync_parent_published_at
after_success config pp db (success false) e h =
    status-maybe_schedule config (record pp { status = published }) published
      (sync_parent_published_at pp.post_id db) h
after_success config pp db (success true) e h = ground arith
after_success config pp db failure e h = ground arith
after_success config pp db escaped e h = ground arith

-- A row that the retry loop loaded is published at its turn whatever its status has become since: of
-- the table the turn asks only that no row of the post is on hold, so a row that was sent back to
-- `draft` in between is sent to the platform and ends as `published`.
pub stale_retry_publishes :
    (now : ℕ) (config : Config) (answers : ℕ → Attempt) (pp row : PlatformPost) (db : Store)
    (handle : Option String)
    → find pp.id db.rows ≡ some row
    → is_held pp.post_id db.rows ≡ false
    → limited_now (answers pp.id).rate_state now ≡ false
    → (answers pp.id).dispatch ≡ delivered handle false
    → (answers pp.id).log_written ≡ true
    → HasStatus pp.id published (retry_one now config answers pp db)
unfolding retry_one
stale_retry_publishes now config answers pp row db handle found free open_ sent written =
    let taken = record db { rows = update pp.id (λ _. true) (set_publishing now) db.rows } in
    let (there, reply, told) =
      delivery_settles now (answers pp.id) (set_publishing now pp) (set_publishing now row) taken
        handle false open_ sent
        (find-update_self pp.id (λ _. true) (set_publishing now) (λ r e. e) db.rows
          ∙ ap (updated (λ _. true) (set_publishing now)) found)
        written in
    rw free (after_success config (set_publishing now pp) _ _ reply (_, there, refl))
