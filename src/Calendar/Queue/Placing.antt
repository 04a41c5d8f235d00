-- ===== src/Calendar/Queue/Placing.antt =====
-- Where a post lands that is added to a queue.
use ai_social_brightbean_stu.Common.{ℕ, ◌≡◌, ◌≢◌, refl, true, Option, none, some, List, All}
use ai_social_brightbean_stu.Composer.PlatformPost.{PlatformPost}
use ai_social_brightbean_stu.Composer.Rows.{Rows, find, update}
use ai_social_brightbean_stu.Calendar.Slots.{SlotTime, is_taken}
use ai_social_brightbean_stu.Calendar.Slots.Lookahead.{FirstFree}
use ai_social_brightbean_stu.Calendar.Queue.{
  Channel, sync_post_scheduled_at, at_slot, assign, write_slot,
}

pub rows-write_slot :
    (now entry slot : ℕ) (pp : PlatformPost) (c : Channel)
    → (write_slot now entry (some pp) slot c).rows
      ≡ update pp.id (λ row. true) (at_slot now slot) c.rows
unfolding write_slot sync_post_scheduled_at assign
rows-write_slot now entry slot pp c = refl

-- The outcome of adding a post whose row is `pp`: all slots were taken, or the row holds the first
-- free one and all other rows are as they were.
pub Placed : ℕ → List SlotTime → List ℕ → PlatformPost → Rows → Option Channel → Type 0
Placed now ts occupied pp rows none = All (λ t. is_taken t occupied ≡ true) ts
Placed now ts occupied pp rows (some after) =
    (t : SlotTime) × FirstFree ts occupied (some t)
    × (find pp.id after.rows ≡ some (at_slot now t.instant pp))
    × ((other : ℕ) → other ≢ pp.id → find other after.rows ≡ find other rows)
