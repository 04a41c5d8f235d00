-- ===== src/Publisher/RateLimit.antt =====
-- `RateLimitState` of apps/publisher/models.py.
use ai_social_brightbean_stu.Common.{
  ℕ, zero, suc, ◌≡◌, Bool, true, false, not, Option, arith, gt_some,
}

-- `requests_remaining`; the column's -1 is `unknown`.
pub data Remaining : Type 0 where
  unknown : Remaining
  remaining : ℕ → Remaining

pub record RateLimitState : Type 0 where
  pub requests_remaining : Remaining
  pub window_resets_at : Option ℕ

limited : Remaining → Option ℕ → ℕ → Bool
limited (remaining zero) resets_at now = gt_some resets_at now
limited _ _ now = false

unfoldable pub is_rate_limited : RateLimitState → ℕ → Bool
unfolding limited
is_rate_limited s now = limited s.requests_remaining s.window_resets_at now

has_headroom : Remaining → Bool → Bool
has_headroom unknown blocked = true
has_headroom (remaining (suc n)) blocked = true
has_headroom (remaining zero) blocked = not blocked

unfoldable pub can_publish : RateLimitState → ℕ → Bool
unfolding has_headroom is_rate_limited
can_publish s now = has_headroom s.requests_remaining (is_rate_limited s now)

-- Both properties answer one question: there is headroom exactly when the window does not block.
pub can_publish-eq-not :
    (s : RateLimitState) (now : ℕ) → can_publish s now ≡ not (is_rate_limited s now)
unfolding can_publish
can_publish-eq-not s now = ground arith
