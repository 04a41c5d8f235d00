-- ===== src/Calendar/Reorder/Redistribution.antt =====
-- A reorder hands out the slots that the entries held, sorted, and touches no other row.
use ai_social_brightbean_stu.Common.{
  ℕ, ◌≡◌, ◌≢◌, true, Option, none, some, List, [], ◌∷◌, All, is_some,
}
use ai_social_brightbean_stu.Composer.PlatformPost.{PlatformPost}
use ai_social_brightbean_stu.Composer.Rows.{Rows, find}
use ai_social_brightbean_stu.Calendar.Reorder.{Slotted}

-- The time that the row of `key` holds in the table.
abbrev pub time_of : Option PlatformPost → Option ℕ
time_of none = none
time_of (some row) = row.scheduled_at

-- No row stands twice in the list.
unfoldable pub DistinctRows : List Slotted → Type 0
DistinctRows [] = Unit
DistinctRows (s ∷ ss) = All (λ u. u.row.id ≢ s.row.id) ss × DistinctRows ss

abbrev Present : Rows → Slotted → Type 0
Present rows s = is_some (find s.row.id rows) ≡ true
