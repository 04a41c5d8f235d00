-- ===== src/Calendar/Slots.antt =====
-- The slots of a channel in apps/calendar/services.py: which come next, which are taken, and the
-- first that is free. A day is a number of days since 1 January 1970, a Thursday, and a time of day a
-- number of microseconds.
pub mod Lookahead
use ai_social_brightbean_stu.Common.{
  ℕ, zero, suc, ◌+◌, ◌*◌, ◌%◌, max, Bool, true, false, not, ◌&&◌, ◌||◌, Option, none, some, List,
  [], ◌∷◌, ◌++◌, map, ltb, ◌==◌, if◌then◌else◌, filter, any, take, length, sort_by, gt_some,
}
use ai_social_brightbean_stu.Composer.PlatformPost.{PlatformPost, is_protected}
use ai_social_brightbean_stu.Composer.Rows.{Rows}
use ai_social_brightbean_stu.Providers.Exceptions.{second}

pub record PostingSlot : Type 0 where
  pub social_account : ℕ
  pub day_of_week : ℕ
  pub time : ℕ
  pub is_active : Bool

-- The datetime of a slot: its instant, and whether its offset depends on `fold`. Such a datetime of
-- the workspace's zone is equal to no datetime of another zone.
pub record SlotTime : Type 0 where
  pub instant : ℕ
  pub folds : Bool

-- The workspace's zone, as the zone library gives it: the date and the time of day of an instant, and
-- the datetime of a day and a time of day.
pub record Zone : Type 0 where
  pub local_date : ℕ → ℕ
  pub local_time : ℕ → ℕ
  pub combine : ℕ → ℕ → SlotTime

abbrev pub day : ℕ
day = 24 * 3600 * second

-- `date.weekday()`
abbrev pub weekday : ℕ → ℕ
weekday date = (date + 3) % 7

-- The active slots of the account, by day of the week and time.
unfoldable pub active_slots : ℕ → List PostingSlot → List PostingSlot
active_slots account slots =
    sort_by (λ s. s.day_of_week * day + s.time)
      (filter (λ s. s.social_account == account && s.is_active) slots)

-- The slots of one day that lie after `after`.
unfoldable pub slots_on : Zone → ℕ → List PostingSlot → ℕ → List SlotTime
slots_on zone after slots date =
    filter (λ t. ltb after t.instant)
      (map (λ s. zone.combine date s.time) (filter (λ s. s.day_of_week == weekday date) slots))

-- The slots of so many days from a date on.
unfoldable pub slots_from : Zone → ℕ → List PostingSlot → ℕ → ℕ → List SlotTime
slots_from zone after slots zero date = []
slots_from zone after slots (suc days) date =
    slots_on zone after slots date ++ slots_from zone after slots days (date + 1)

-- The days that are walked.
abbrev pub horizon : ℕ
horizon = 60

unfoldable pub upcoming : Zone → List PostingSlot → ℕ → ℕ → List SlotTime
upcoming zone slots account after =
    slots_from zone after (active_slots account slots) horizon (zone.local_date after)

-- `_next_slot_datetimes`; a result is returned only after one was added.
unfoldable pub next_slot_datetimes : Zone → List PostingSlot → ℕ → ℕ → ℕ → List SlotTime
next_slot_datetimes zone slots account after count =
    take (max 1 count) (upcoming zone slots account after)

-- The elements of a list, each once.
unfoldable pub distinct : List ℕ → List ℕ
distinct [] = []
distinct (x ∷ xs) = let rest = distinct xs in if any (λ y. y == x) xs then rest else x ∷ rest

times_of : Rows → List ℕ
times_of [] = []
times_of (row ∷ rows) =
    let rest = times_of rows in elim row.scheduled_at [ none ↦ rest | some t ↦ t ∷ rest ]

-- `_occupied_datetimes`
unfoldable pub occupied_datetimes : ℕ → ℕ → List ℕ → Rows → List ℕ
unfolding times_of
occupied_datetimes now account excluded rows = distinct (
    times_of (
      filter
        (λ row.
          row.social_account == account
          && gt_some row.scheduled_at now
          && not (is_protected row.status)
          && not (any (λ id. id == row.id) excluded))
        rows))

-- `slot_dt in occupied`, where the set holds datetimes of the database's zone.
unfoldable pub is_taken : SlotTime → List ℕ → Bool
is_taken t occupied = not t.folds && any (λ o. o == t.instant) occupied

unfoldable pub first_free : List SlotTime → List ℕ → Option SlotTime
first_free [] occupied = none
first_free (t ∷ ts) occupied =
    let rest = first_free ts occupied in if is_taken t occupied then rest else some t

-- `_next_available_slot`
unfoldable pub next_available_slot :
    Zone → List PostingSlot → ℕ → ℕ → ℕ → List ℕ → Rows → Option SlotTime
next_available_slot zone slots now account after excluded rows =
    let occupied = occupied_datetimes now account excluded rows in
    first_free (next_slot_datetimes zone slots account after (length occupied + 1)) occupied
