-- ===== src/Publisher/FirstComment/Run.antt =====
-- What every way through one run of the first comment's task keeps to.
use ai_social_brightbean_stu.Common.{
  ℕ, ◌+◌, ◌≡◌, ◌<◌, ◌⊎◌, inl, inr, refl, Bool, true, false, Option, none, some, arith, ltb,
  Bool-cases, String,
}
use ai_social_brightbean_stu.Providers.Exceptions.{ProviderException}
use ai_social_brightbean_stu.SocialAccounts.ErrorMessages.{UserText}
use ai_social_brightbean_stu.Composer.PlatformPost.{
  PlatformPost, Post, FirstCommentStatus, posted, effective_first_comment,
}
use ai_social_brightbean_stu.Publisher.FirstComment.{
  Lookup, present, absent, lookup_raised, Submission, created, unsupported, submit_raised, Answers,
  Effect, first_comment_max_retries, record_failure, mark_posted, submit_again, submit, reconcile,
  with_client, on_client, on_handle, on_text, on_status, post_first_comment,
}

record_failure_requeues :
    (now : ℕ) (row : PlatformPost) (message : UserText) (retryable : Bool) (after at : Option ℕ)
    (s : Bool) (delay : ℕ)
    → (record_failure now row message retryable after at s).requeued ≡ some delay
    → (retryable ≡ true)
      × (row.first_comment_retry_count < first_comment_max_retries)
      × ((record_failure now row message retryable after at s).row.first_comment_retry_count
          ≡ row.first_comment_retry_count + 1)
unfolding record_failure
record_failure_requeues now row message retryable after at s delay h = ground arith

record_failure_submitted :
    (now : ℕ) (row : PlatformPost) (message : UserText) (retryable : Bool) (after at : Option ℕ)
    (s : Bool)
    → (record_failure now row message retryable after at s).submitted ≡ s
unfolding record_failure
record_failure_submitted now row message retryable after at s = ground arith

-- The submission raised what may be sent again.
abbrev pub IsRepeatable : Submission → Bool → Type 0
IsRepeatable (submit_raised e) can_reconcile = submit_again e can_reconcile ≡ true
IsRepeatable _ can_reconcile = ⊥

module _ (now : ℕ) (a : Answers) (row : PlatformPost) where
  -- What every way through one run keeps to.
  pub record Kept (e : Effect) : Type 0 where
    pub counts :
        (delay : ℕ)
        → e.requeued ≡ some delay
        → (row.first_comment_retry_count < first_comment_max_retries)
          × (e.row.first_comment_retry_count ≡ row.first_comment_retry_count + 1)
    pub looked_up :
        e.submitted ≡ true
        → 0 < row.first_comment_retry_count
        → (a.lookup ≡ absent) ⊎ (a.lookup ≡ present none)
    pub raises :
        (delay : ℕ)
        → e.submitted ≡ true
        → e.requeued ≡ some delay
        → IsRepeatable a.submission a.can_reconcile

  unsubmitted :
      (message : UserText) (retryable : Bool) (after at : Option ℕ)
      → Kept (record_failure now row message retryable after at false)
  unsubmitted message retryable after at = record {
    counts = λ delay h.
        let (r, budget, count) =
          record_failure_requeues now row message retryable after at false delay h in
        (budget, count);
    looked_up =
        λ s. ground (arith, record_failure_submitted now row message retryable after at false);
    raises = λ delay s.
        ground (arith, record_failure_submitted now row message retryable after at false);
  }

  marked :
      (comment_id : Option String) (s : Bool)
      → (s ≡ true
          → 0 < row.first_comment_retry_count
          → (a.lookup ≡ absent) ⊎ (a.lookup ≡ present none))
      → Kept (mark_posted now row comment_id s)
  unfolding mark_posted
  marked comment_id s looked = record {
    counts = λ delay h. ground arith;
    looked_up = looked;
    raises = λ delay s h. ground arith;
  }

  nothing : Kept (record { row = row; requeued = none; submitted = false })
  nothing = record {
    counts = λ delay h. ground arith;
    looked_up = λ s. ground arith;
    raises = λ delay s h. ground arith;
  }

  submitting :
      (l : Submission)
      → a.submission ≡ l
      → (0 < row.first_comment_retry_count → (a.lookup ≡ absent) ⊎ (a.lookup ≡ present none))
      → Kept (submit now a row l)
  unfolding submit
  submitting (created comment_id) e looked = marked comment_id true (λ s. looked)
  submitting unsupported e looked = nothing
  submitting (submit_raised x) e looked = record {
    counts = λ delay h.
        let (r, budget, count) = record_failure_requeues now row _ _ _ _ true delay h in
        (budget, count);
    looked_up = λ s. looked;
    raises = λ delay s h. rw e (record_failure_requeues now row _ _ _ _ true delay h).0;
  }

  reconciling : (l : Lookup) → a.lookup ≡ l → Kept (reconcile now a row l)
  unfolding reconcile
  reconciling (present (some comment_id)) e = marked (some comment_id) false (λ s. ground arith)
  reconciling (present none) e = submitting a.submission refl (λ h. inr e)
  reconciling absent e = submitting a.submission refl (λ h. inl e)
  reconciling (lookup_raised x) e = unsubmitted _ _ _ _

  contacting : Kept (with_client now a row)
  unfolding with_client
  contacting = elim (Bool-cases (ltb 0 row.first_comment_retry_count)) [
    | inl h ↦ rw h (reconciling a.lookup refl)
    | inr h ↦ rw h (submitting a.submission refl (λ p. ground arith))
  ]

  with_answer : (c : Option ProviderException) → Kept (on_client now a row c)
  unfolding on_client
  with_answer none = contacting
  with_answer (some x) = unsubmitted _ _ _ _

  with_handle : (handle : Option String) → Kept (on_handle now a row handle)
  unfolding on_handle
  with_handle none = unsubmitted _ _ _ _
  with_handle (some handle) = with_answer a.client_error

  with_text : (text : Option String) → Kept (on_text now a row text)
  unfolding on_text
  with_text none = nothing
  with_text (some comment) = with_handle row.platform_post_id

  with_status : (post : Post) (s : FirstCommentStatus) → Kept (on_status now a post row s)
  unfolding on_status
  with_status post posted = nothing
  with_status post _ = with_text (effective_first_comment row post)

  pub run_keeps : (post : Post) → Kept (post_first_comment now a post row)
  unfolding post_first_comment
  run_keeps post = with_status post row.first_comment_status
