-- ===== src/Publisher/FirstComment/Once.antt =====
-- However often the task of a post runs, at most one first comment is on the platform.
use ai_social_brightbean_stu.Common.{
  ℕ, ◌+◌, ◌≡◌, ◌≢◌, ◌≤◌, ◌<◌, ◌⊎◌, inl, inr, refl, sym, Bool, true, false, none, some, arith,
  if◌then◌else◌, Bool-cases,
}
use ai_social_brightbean_stu.Providers.Exceptions.{ProviderException, is_rate_limit}
use ai_social_brightbean_stu.Composer.PlatformPost.{PlatformPost, Post}
use ai_social_brightbean_stu.Publisher.FirstComment.{
  present, absent, Submission, created, unsupported, submit_raised, Answers, Effect,
  first_comment_max_retries, is_401, is_ambiguous, is_retryable, submit_again, post_first_comment,
}
use ai_social_brightbean_stu.Publisher.FirstComment.Run.{IsRepeatable, run_keeps}

-- How many comments the submission adds; `landed` tells whether one that raised created it after all.
abbrev pub adds : Submission → Bool → ℕ
adds (created comment_id) landed = 1
adds unsupported landed = 0
adds (submit_raised e) landed = if landed then 1 else 0

-- A 401 and a rate limit are refusals before the write.
abbrev pub RefusedBeforeWrite : Submission → Bool → Type 0
RefusedBeforeWrite (submit_raised e) landed =
    landed ≡ true → (is_rate_limit e.kind ≡ false) × (is_401 e.status_code ≡ false)
RefusedBeforeWrite _ landed = Unit

-- The answers fit a platform that holds `comments` of our first comments: a provider that can look
-- them up finds one where there is one.
pub record IsTruthful (reconciles : Bool) (comments : ℕ) (a : Answers) (landed : Bool)
    : Type 0 where
  pub same_provider : a.can_reconcile ≡ reconciles
  pub finds : reconciles ≡ true → 0 < comments → (a.lookup ≢ absent) × (a.lookup ≢ present none)
  pub refused : RefusedBeforeWrite a.submission landed

abbrev pub comments_after : ℕ → Effect → Submission → Bool → ℕ
comments_after comments effect submission landed =
    comments + (if effect.submitted then adds submission landed else 0)

-- A task is queued for the row while `comments` are on the platform: the first, or one that a run
-- of the task queued again.
pub data Waiting (post : Post) (reconciles : Bool) : PlatformPost → ℕ → Type 0 where
  first : (row : PlatformPost) → row.first_comment_retry_count ≡ 0 → Waiting post reconciles row 0
  again :
      {row : PlatformPost} {comments : ℕ}
      → Waiting post reconciles row comments
      → (now delay : ℕ) (a : Answers) (landed : Bool) → IsTruthful reconciles comments a landed
      → (post_first_comment now a post row).requeued ≡ some delay
      → Waiting post reconciles
          (post_first_comment now a post row).row
          (comments_after comments (post_first_comment now a post row) a.submission landed)

-- No comment is out, or one is and the next run will look it up.
abbrev IsSafe : Bool → PlatformPost → ℕ → Type 0
IsSafe reconciles row comments =
    (comments ≡ 0) ⊎ ((comments ≡ 1) × (0 < row.first_comment_retry_count) × (reconciles ≡ true))

adds_bound : (l : Submission) (landed : Bool) → adds l landed ≤ 1
adds_bound (created comment_id) landed = omega arith
adds_bound unsupported landed = omega arith
adds_bound (submit_raised x) landed = ground arith

-- A refusal that may be sent again and yet created the comment is one that can be looked up.
landed_again :
    (x : ProviderException) (can_reconcile : Bool)
    → submit_again x can_reconcile ≡ true
    → (is_rate_limit x.kind ≡ false) × (is_401 x.status_code ≡ false)
    → can_reconcile ≡ true
unfolding submit_again is_retryable is_ambiguous
landed_again x can_reconcile h (limit, auth) = ground arith

module _ (post : Post) (reconciles : Bool) (now : ℕ) (a : Answers) (landed : Bool)
    (row : PlatformPost) where
  -- A run that submits has no comment out before it.
  none_out :
      (comments : ℕ)
      → IsTruthful reconciles comments a landed
      → IsSafe reconciles row comments
      → (post_first_comment now a post row).submitted ≡ true
      → comments ≡ 0
  none_out comments t (inl e) s = e
  none_out comments t (inr (one, count, r)) s =
      let (present_, found) = t.finds r (omega (arith, one)) in
      elim ((run_keeps now a row post).looked_up s count) [
        | inl e ↦ absurd (present_ e)
        | inr e ↦ absurd (found e)
      ]

  repeated_safely :
      (l : Submission)
      → RefusedBeforeWrite l landed
      → IsRepeatable l reconciles
      → (adds l landed ≡ 0) ⊎ ((adds l landed ≡ 1) × (reconciles ≡ true))
  repeated_safely (created comment_id) f h = absurd h
  repeated_safely unsupported f h = inl refl
  repeated_safely (submit_raised x) f h = elim (Bool-cases landed) [
    | inl l ↦ rw l (inr (refl, landed_again x reconciles h (f l)))
    | inr l ↦ rw l (inl refl)
  ]

  unsent :
      (e : Effect) (comments : ℕ)
      → IsSafe reconciles row comments
      → e.submitted ≡ false
      → e.row.first_comment_retry_count ≡ row.first_comment_retry_count + 1
      → IsSafe reconciles e.row (comments_after comments e a.submission landed)
  unsent e comments (inl z) s count = inl (simp s (omega (arith, z)))
  unsent e comments (inr (one, few, r)) s count = inr (simp s (omega (arith, one)), omega arith, r)

  sent :
      (e : Effect) (comments : ℕ)
      → comments ≡ 0
      → e.submitted ≡ true
      → e.row.first_comment_retry_count ≡ row.first_comment_retry_count + 1
      → (adds a.submission landed ≡ 0) ⊎ ((adds a.submission landed ≡ 1) × (reconciles ≡ true))
      → IsSafe reconciles e.row (comments_after comments e a.submission landed)
  sent e comments z s count (inl none_) = inl (simp s (omega (arith, z, none_)))
  sent e comments z s count (inr (one, r)) = inr (simp s (omega (arith, z, one)), omega arith, r)

  next_IsSafe :
      (comments delay : ℕ)
      → IsTruthful reconciles comments a landed
      → IsSafe reconciles row comments
      → (post_first_comment now a post row).requeued ≡ some delay
      → IsSafe reconciles
          (post_first_comment now a post row).row
          (comments_after comments (post_first_comment now a post row) a.submission landed)
  next_IsSafe comments delay t safe h =
      let kept = run_keeps now a row post in
      let (budget, count) = kept.counts delay h in
      elim (Bool-cases (post_first_comment now a post row).submitted) [
        | inl s ↦
            sent (post_first_comment now a post row) comments (none_out comments t safe s) s count (
              repeated_safely a.submission t.refused
                (simp (sym t.same_provider) (kept.raises delay s h)))
        | inr s ↦ unsent (post_first_comment now a post row) comments safe s count
      ]

IsSafe-le :
    (reconciles : Bool) (row : PlatformPost) (comments : ℕ)
    → IsSafe reconciles row comments
    → comments ≤ 1
IsSafe-le reconciles row comments (inl z) = omega (arith, z)
IsSafe-le reconciles row comments (inr (one, few, r)) = omega (arith, one)

Waiting-IsSafe :
    (post : Post) (reconciles : Bool) (row : PlatformPost) (comments : ℕ)
    → Waiting post reconciles row comments
    → IsSafe reconciles row comments × (row.first_comment_retry_count ≤ first_comment_max_retries)
Waiting-IsSafe post reconciles row comments (first r fresh) = (inl refl, omega (arith, fresh))
Waiting-IsSafe post reconciles row' comments'
      (again {row = row} {comments = comments} w now delay a landed t h) =
    let (safe, few) = Waiting-IsSafe post reconciles row comments w in
    let (budget, count) = (run_keeps now a row post).counts delay h in
    (next_IsSafe post reconciles now a landed row comments delay t safe h, omega (arith, count))

-- Whatever the platform answered to the runs before, a further run leaves at most one first comment
-- of the row on the platform: so long as a lookup finds a comment that is there, one provider serves
-- all runs, and a refusal by rate limit or 401 created nothing. And the row's
-- count of the runs queued again stays within the budget.
pub at_most_one_comment :
    (post : Post) (reconciles : Bool) (row : PlatformPost) (comments now : ℕ) (a : Answers)
    (landed : Bool)
    → Waiting post reconciles row comments
    → IsTruthful reconciles comments a landed
    → (comments_after comments (post_first_comment now a post row) a.submission landed ≤ 1)
      × (row.first_comment_retry_count ≤ first_comment_max_retries)
at_most_one_comment post reconciles row comments now a landed w t =
    let (safe, few) = Waiting-IsSafe post reconciles row comments w in
    (
      elim (Bool-cases (post_first_comment now a post row).submitted) [
        | inl s ↦ simp s (
            omega (
              arith,
              adds_bound a.submission landed,
              none_out post reconciles now a landed row comments t safe s,
            ))
        | inr s ↦ simp s (omega (arith, IsSafe-le reconciles row comments safe))
      ],
      few,
    )
