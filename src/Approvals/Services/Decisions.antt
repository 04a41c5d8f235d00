-- ===== src/Approvals/Services/Decisions.antt =====
-- What the other decisions do to the rows of a post.
use ai_social_brightbean_stu.Common.{
  ℕ, ◌≡◌, Bool, true, false, ◌&&◌, Option, some, ◌==◌, if◌then◌else◌,
}
use ai_social_brightbean_stu.Composer.Status.{Status, ◌is◌}
use ai_social_brightbean_stu.Composer.PlatformPost.{PlatformPost, Post, can_transition}
use ai_social_brightbean_stu.Composer.Rows.{find}
use ai_social_brightbean_stu.Approvals.Desk.{Desk}

-- The rows of the post whose status is in `eligible` get the status `new`.
pub set_status : ℕ → (Status → Bool) → Status → Post → PlatformPost → PlatformPost
set_status now eligible new post row =
    if row.post_id == post.id && eligible row.status
    then record row { status = new; updated_at = now }
    else row

-- The transition table allows the move from every eligible status.
abbrev IsLegal : (Status → Bool) → Status → Type 0
IsLegal eligible new =
    (s : Status) → eligible s ≡ true → ((s is new) ≡ false) × (can_transition s new ≡ true)

-- The row of `key` after a decision that did not raise.
abbrev pub LeavesRow : ℕ → PlatformPost → Option (Desk × Bool) → Type 0
LeavesRow key row result =
    (after : Desk) × (moved : Bool) × (result ≡ some (after, moved))
    × (find key after.rows ≡ some row)
