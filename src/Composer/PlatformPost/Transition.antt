-- ===== src/Composer/PlatformPost/Transition.antt =====
-- What `transition_to` writes and what it leaves alone.
use mathlib.Core.Path.{subst}
use ai_social_brightbean_stu.Common.{ℕ, ◌≡◌, ◌≢◌, true, none, some, arith}
use ai_social_brightbean_stu.Composer.Status.{Status, scheduled, published}
use ai_social_brightbean_stu.Composer.PlatformPost.{
  PlatformPost, can_transition, settle_transition, transition_to,
}

-- The effect of a transition from `pp` to `new` at `now`.
pub record IsMoved (now : ℕ) (new : Status) (pp moved : PlatformPost) : Type 0 where
  pub allowed : can_transition pp.status new ≡ true
  pub entered : moved.status ≡ new
  pub stamped : new ≡ published → moved.published_at ≡ some now
  pub unstamped : new ≢ published → moved.published_at ≡ pp.published_at
  pub fresh_budget : new ≡ scheduled → moved.retry_count ≡ 0
  pub fresh_backoff : new ≡ scheduled → moved.next_retry_at ≡ none
  pub fresh_error : new ≡ scheduled → moved.publish_error ≡ none
  pub fresh_handle : new ≡ scheduled → moved.platform_post_id ≡ none
  pub same_budget : new ≢ scheduled → moved.retry_count ≡ pp.retry_count
  pub same_backoff : new ≢ scheduled → moved.next_retry_at ≡ pp.next_retry_at
  pub same_error : new ≢ scheduled → moved.publish_error ≡ pp.publish_error
  pub same_handle : new ≢ scheduled → moved.platform_post_id ≡ pp.platform_post_id
  pub same_id : moved.id ≡ pp.id
  pub same_post : moved.post_id ≡ pp.post_id
  pub same_account : moved.social_account ≡ pp.social_account
  pub same_time : moved.scheduled_at ≡ pp.scheduled_at

settled :
    (now : ℕ) (new : Status) (pp : PlatformPost)
    → can_transition pp.status new ≡ true
    → IsMoved now new pp (settle_transition now new pp)
unfolding settle_transition
settled now published pp h = ground arith
settled now scheduled pp h = ground arith
settled now _ pp h = ground arith

transition_to-some :
    (now : ℕ) (new : Status) (pp moved : PlatformPost)
    → transition_to now new pp ≡ some moved
    → (can_transition pp.status new ≡ true) × (settle_transition now new pp ≡ moved)
unfolding transition_to
transition_to-some now new pp moved h = ground arith

-- A transition that succeeds was in the table and has exactly the effect of `IsMoved`: it enters
-- the new status, stamps `published_at` only on publishing, and on entering `scheduled`, and only
-- then, resets the retry budget, the backoff, the error and the platform's handle.
pub transition_to-IsMoved :
    (now : ℕ) (new : Status) (pp moved : PlatformPost)
    → transition_to now new pp ≡ some moved
    → IsMoved now new pp moved
transition_to-IsMoved now new pp moved h =
    let (allowed, settles) = transition_to-some now new pp moved h in
    subst (IsMoved now new pp) settles (settled now new pp allowed)
