-- ===== src/Publisher/Publish/Outcome.antt =====
-- Where one attempt can leave the row that it was made for.
use ai_social_brightbean_stu.Common.{
  ◌+◌, ℕ, ◌≡◌, ◌<◌, ◌≤◌, ◌⊎◌, inl, inr, refl, true, false, not, ◌&&◌, Option, none, some, arith,
  leb, Bool-cases,
}
use ai_social_brightbean_stu.Providers.Exceptions.{ProviderException}
use ai_social_brightbean_stu.SocialAccounts.ErrorMessages.{
  UserText, exhausted_publish_message, friendly_publish_error, publish_generic, publish_rate_limit,
}
use ai_social_brightbean_stu.Composer.Status.{scheduled, publishing, failed}
use ai_social_brightbean_stu.Composer.Status.Members.{is_refl}
use ai_social_brightbean_stu.Composer.PlatformPost.{PlatformPost}
use ai_social_brightbean_stu.Composer.Rows.{find}
use ai_social_brightbean_stu.Composer.Rows.Laws.{IsKeyed}
use ai_social_brightbean_stu.Publisher.Store.{Store}
use ai_social_brightbean_stu.Publisher.Failure.{
  max_retries, fail_permanently, schedule_retry, set_failed,
}
use ai_social_brightbean_stu.Publisher.Failure.Guard.{fail_permanently-IsSettled}
use ai_social_brightbean_stu.Publisher.Failure.Backoff.{schedule_retry_outcome, parked}
use ai_social_brightbean_stu.Publisher.Publish.{
  Attempt, Dispatch, delivered, reported_failure, raised, database_error, refused_a_live_token,
  limited_now, log, on_exception, on_dispatch, publish_platform_post,
}

-- The row waits for an attempt that lies after `now`, with one attempt more on its count.
abbrev pub IsParked : ℕ → ℕ → PlatformPost → Type 0
IsParked now count row =
    (row.status ≡ scheduled)
    × (t : ℕ) × (row.next_retry_at ≡ some t)
    × (now < t)
    × (row.retry_count ≡ count + 1)
    × (row.retry_count ≤ max_retries)

-- The row of the copy `pp` is parked for a retry, or has failed for good.
abbrev pub IsResolved : ℕ → PlatformPost → Store → Type 0
IsResolved now pp db =
    (row : PlatformPost) × (find pp.id db.rows ≡ some row)
    × (IsParked now pp.retry_count row ⊎ (row.status ≡ failed))

module _ (now : ℕ) (pp old : PlatformPost) (db : Store) (keyed : IsKeyed db.rows)
    (found : find pp.id db.rows ≡ some old) (busy : old.status ≡ publishing) where
  fail_resolves : (message : UserText) → IsResolved now pp (fail_permanently now pp message db)
  fail_resolves message =
      let settled = fail_permanently-IsSettled now pp message db keyed in
      (set_failed now message old, ground (arith, settled.own_row, is_refl publishing), inr refl)

  retry_resolves :
      (message : UserText) (retry_at : Option ℕ)
      → IsResolved now pp (schedule_retry now pp message retry_at db)
  retry_resolves message retry_at =
      let (left, spent) = schedule_retry_outcome now pp old message retry_at db found in
      elim (Bool-cases (leb max_retries pp.retry_count)) [
        | inl e ↦ rw (spent (ground arith)) (fail_resolves (exhausted_publish_message message))
        | inr e ↦
            let (row, others, told, budget, future) = left (ground arith) in
            (parked now pp message retry_at, row, inl (refl, _, refl, future, refl, budget))
      ]

-- An attempt that delivered nothing.
abbrev pub IsUndelivered : Dispatch → Type 0
IsUndelivered (delivered handle async) = ⊥
IsUndelivered _ = Unit

module _ (now : ℕ) (a : Attempt) (written : a.error_log_written ≡ true) (pp old : PlatformPost)
    (db : Store) (keyed : IsKeyed db.rows) (found : find pp.id db.rows ≡ some old)
    (busy : old.status ≡ publishing) where
  exception_resolves : (e : ProviderException) → IsResolved now pp (on_exception now a pp e db).0
  unfolding on_exception
  exception_resolves e =
      simp written (elim (Bool-cases (e.retryable && not (refused_a_live_token a e now))) [
        | inl again ↦ simp again (
            retry_resolves now pp old (log pp false db) keyed found busy
              (friendly_publish_error e now) e.resets_at)
        | inr final ↦ simp final (
            fail_resolves now pp old (log pp false db) keyed found busy
              (friendly_publish_error e now))
      ])

  reported_resolves : IsResolved now pp (on_dispatch now a pp reported_failure db).0
  unfolding on_dispatch
  reported_resolves = elim (Bool-cases a.log_written) [
    | inl w ↦
        simp w (retry_resolves now pp old (log pp false db) keyed found busy publish_generic none)
    | inr w ↦ simp w (exception_resolves database_error)
  ]

  dispatch_resolves :
      (d : Dispatch) → IsUndelivered d → IsResolved now pp (on_dispatch now a pp d db).0
  dispatch_resolves (delivered handle async) u = absurd u
  dispatch_resolves reported_failure u = reported_resolves
  dispatch_resolves (raised e) u = unfold on_dispatch in exception_resolves e

  attempt_resolves :
      (limited_now a.rate_state now ≡ true) ⊎ IsUndelivered a.dispatch
      → IsResolved now pp (publish_platform_post now a pp db).0
  unfolding publish_platform_post
  attempt_resolves cause = elim (Bool-cases (limited_now a.rate_state now)) [
    | inl l ↦ simp l (retry_resolves now pp old db keyed found busy publish_rate_limit none)
    | inr free ↦ simp free (dispatch_resolves a.dispatch (undelivered cause free))
  ]
    where
      undelivered :
          (limited_now a.rate_state now ≡ true) ⊎ IsUndelivered a.dispatch
          → limited_now a.rate_state now ≡ false
          → IsUndelivered a.dispatch
      undelivered (inl l) f = cc
      undelivered (inr u) f = u

-- An attempt that was rate-limited or that delivered nothing, on a row that the table has as
-- `publishing`, always takes the row out of `publishing`: it waits for an attempt in the future with
-- one attempt more on its count, within the budget, or it has failed. The log of the failure must be
-- writable.
pub undelivered_resolves :
    (now : ℕ) (a : Attempt) (pp old : PlatformPost) (db : Store)
    → a.error_log_written ≡ true
    → IsKeyed db.rows
    → find pp.id db.rows ≡ some old
    → old.status ≡ publishing
    → (limited_now a.rate_state now ≡ true) ⊎ IsUndelivered a.dispatch
    → IsResolved now pp (publish_platform_post now a pp db).0
undelivered_resolves now a pp old db written keyed found busy cause =
    attempt_resolves now a written pp old db keyed found busy cause
