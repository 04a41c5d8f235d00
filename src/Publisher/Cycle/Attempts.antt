-- ===== src/Publisher/Cycle/Attempts.antt =====
-- How often a row that never gets through is attempted.
use ai_social_brightbean_stu.Common.{
  ℕ, suc, ◌+◌, ◌≡◌, ◌≤◌, ◌⊎◌, inl, inr, refl, ap, ◌∙◌, true, false, some, arith, Bool-cases,
}
use ai_social_brightbean_stu.Providers.Exceptions.{ProviderException}
use ai_social_brightbean_stu.Composer.Status.{scheduled, failed}
use ai_social_brightbean_stu.Composer.PlatformPost.{PlatformPost}
use ai_social_brightbean_stu.Composer.Rows.{find, update, is_held}
use ai_social_brightbean_stu.Composer.Rows.Laws.{updated, IsKeyed, find-update_self, update-IsKeyed}
use ai_social_brightbean_stu.Publisher.Store.{Store, Config}
use ai_social_brightbean_stu.Publisher.Failure.{max_retries}
use ai_social_brightbean_stu.Publisher.Publish.{
  Attempt, Dispatch, delivered, reported_failure, raised, Reply, success, failure, escaped,
  database_error, limited_now, on_exception, on_dispatch, publish_platform_post,
}
use ai_social_brightbean_stu.Publisher.Publish.Outcome.{
  IsUndelivered, IsResolved, undelivered_resolves,
}
use ai_social_brightbean_stu.Publisher.Cycle.{set_publishing, after_retry, retry_one}

module _ (now : ℕ) (a : Attempt) (written : a.error_log_written ≡ true) (pp : PlatformPost)
    (db : Store) where
  exception_reply : (e : ProviderException) → (on_exception now a pp e db).1 ≡ failure
  unfolding on_exception
  exception_reply e = simp written refl

  dispatch_reply : (d : Dispatch) → IsUndelivered d → (on_dispatch now a pp d db).1 ≡ failure
  unfolding on_dispatch
  dispatch_reply (delivered handle async) u = absurd u
  dispatch_reply reported_failure u = elim (Bool-cases a.log_written) [
    | inl w ↦ simp w refl
    | inr w ↦ simp w (exception_reply database_error)
  ]
  dispatch_reply (raised e) u = exception_reply e

  undelivered_reply : IsUndelivered a.dispatch → (publish_platform_post now a pp db).1 ≡ failure
  unfolding publish_platform_post
  undelivered_reply u = elim (Bool-cases (limited_now a.rate_state now)) [
    | inl l ↦ simp l refl
    | inr free ↦ simp free (dispatch_reply a.dispatch u)
  ]

after_failure :
    (config : Config) (pp : PlatformPost) (result : Store × Reply)
    → result.1 ≡ failure
    → after_retry config pp result ≡ result.0
unfolding after_retry
after_failure config pp (db, failure) e = refl
after_failure config pp (db, escaped) e = refl
after_failure config pp (db, success async) e = ground arith

-- A turn of the retry loop that finds the row of `key` waiting, in its place in the table, and gets
-- nothing through.
pub record FailedTurn (now : ℕ) (config : Config) (answers : ℕ → Attempt) (row : PlatformPost)
    (db : Store) : Type 0 where
  pub keyed : IsKeyed db.rows
  pub waits : find row.id db.rows ≡ some row
  pub free : is_held row.post_id db.rows ≡ false
  pub written : (answers row.id).error_log_written ≡ true
  pub undelivered : IsUndelivered (answers row.id).dispatch

pub turn_resolves :
    (now : ℕ) (config : Config) (answers : ℕ → Attempt) (row : PlatformPost) (db : Store)
    → FailedTurn now config answers row db
    → IsResolved now (set_publishing now row) (retry_one now config answers row db)
unfolding retry_one
turn_resolves now config answers row db turn =
    let taken = record db { rows = update row.id (λ _. true) (set_publishing now) db.rows } in
    let pp = set_publishing now row in
    rw
      (
        turn.free,
        after_failure config pp (publish_platform_post now (answers row.id) pp taken)
            (undelivered_reply now (answers row.id) turn.written pp taken turn.undelivered),
      )
      (undelivered_resolves now (answers row.id) pp pp taken turn.written
        (update-IsKeyed row.id (λ _. true) (set_publishing now) (λ r. refl) db.rows turn.keyed)
        (find-update_self row.id (λ _. true) (set_publishing now) (λ r e. e) db.rows
          ∙ ap (updated (λ _. true) (set_publishing now)) turn.waits)
        refl (inr turn.undelivered))

-- So many turns one after another, each on the row as the table has it, from a row with `count`
-- attempts behind it. Between two turns anything may happen to the table that leaves this row alone.
pub data FailedTurns (config : Config) : ℕ → PlatformPost → ℕ → Type 0 where
  no_turn :
      (count : ℕ) (row : PlatformPost) → row.retry_count ≡ count → FailedTurns config count row 0
  next_turn :
      {count turns : ℕ} {row : PlatformPost}
      → FailedTurns config count row turns
      → row.status ≡ scheduled
      → (now : ℕ) (answers : ℕ → Attempt) (db : Store) → FailedTurn now config answers row db
      → (after : PlatformPost) → find row.id (retry_one now config answers row db).rows ≡ some after
      → FailedTurns config count after (suc turns)

-- The row still waits, with all attempts on its count, or it has failed.
abbrev Spent : ℕ → ℕ → PlatformPost → Type 0
Spent count turns row =
    ((row.retry_count ≡ count + turns) × (count + turns ≤ max_retries))
    ⊎ ((row.status ≡ failed) × (count + turns ≤ max_retries + 1))
