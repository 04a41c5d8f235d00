-- ===== src/Examples/Queueing.antt =====
-- The queue of a channel with two slots a week.
use ai_social_brightbean_stu.Common.{
  ℕ, ◌+◌, ◌*◌, ◌/◌, ◌%◌, ◌≡◌, refl, Bool, true, false, Option, none, some, List, [], ◌∷◌, map,
  sort_by, all, not, ◌&&◌, ◌==◌,
}
use ai_social_brightbean_stu.Composer.Status.{draft, scheduled}
use ai_social_brightbean_stu.Composer.PlatformPost.{PlatformPost, is_protected}
use ai_social_brightbean_stu.Composer.Rows.{update}
use ai_social_brightbean_stu.Calendar.Slots.{
  PostingSlot, SlotTime, Zone, day, upcoming, active_slots, slots_from, slots_on,
  occupied_datetimes, is_taken, next_slot_datetimes, distinct,
}
use ai_social_brightbean_stu.Calendar.Queue.{
  QueueEntry, Channel, platform_post_for, ensure_entry, write_slot, sync_post_scheduled_at,
}
use ai_social_brightbean_stu.Calendar.Priority.{
  Mover, Place, drop, next_place, ladder, prioritize, movable, movers, index_of, avoided, ladder_of,
  descending,
}
use ai_social_brightbean_stu.Calendar.Priority.Ladder.{Laddered, ladder-Laddered}
use ai_social_brightbean_stu.Examples.Data.{new_row, announcement}

-- A zone without an offset, and one in which every time of day is ambiguous.
abbrev utc : Zone
utc = record {
  local_date = λ t. t / day;
  local_time = λ t. t % day;
  combine = λ date time. record { instant = date * day + time; folds = false };
}

abbrev folding : Zone
folding = record {
  local_date = λ t. t / day;
  local_time = λ t. t % day;
  combine = λ date time. record { instant = date * day + time; folds = true };
}

abbrev slots : List PostingSlot
slots =
    record { social_account = 3; day_of_week = 4; time = 9; is_active = true }
    ∷ record { social_account = 3; day_of_week = 0; time = 8; is_active = true }
    ∷ []

abbrev early : PlatformPost
early = record (new_row 1 7 scheduled) { scheduled_at = some (day + 9) }

abbrev late : PlatformPost
late = record (new_row 2 8 scheduled) { scheduled_at = some (4 * day + 8) }

abbrev idea : PlatformPost
idea = record (new_row 3 9 draft) { scheduled_at = none }

abbrev entry : ℕ → ℕ → QueueEntry
entry id post_id = record {
  id = id;
  post_id = post_id;
  position = id;
  assigned_slot_datetime = none;
}

abbrev channel : Channel
channel = record {
  social_account = 3;
  entries = entry 21 7 ∷ entry 22 8 ∷ [];
  rows = early ∷ late ∷ idea ∷ [];
  post_of = announcement;
}

-- A test for `Distinct`.
abbrev differ : List SlotTime → Bool
differ [] = true
differ (t ∷ ts) = let rest = differ ts in all (λ u. not (u.instant == t.instant)) ts && rest

abbrev tail : List SlotTime → List SlotTime
tail [] = []
tail (t ∷ ts) = ts

first_folds :
    upcoming folding slots 3 0
    ≡ (record { instant = day + 9; folds = true }) ∷ tail (upcoming folding slots 3 0)
unfolding upcoming active_slots slots_from slots_on sort_by
first_folds = refl

abbrev at_day : ℕ → SlotTime
at_day n = record { instant = n * day; folds = false }

abbrev four_days : List SlotTime
four_days = at_day 1 ∷ at_day 2 ∷ at_day 3 ∷ at_day 4 ∷ []

-- The first slot moves over the one that a row outside the queue holds.
abbrev climber : Mover
climber = record { index = 0; held = record { entry = 21; row = early; time = day } }

abbrev landing : Place
landing = record { index = 2; slot = at_day 3 }

climbs : ladder four_days (2 * day ∷ []) (0 ∷ []) (climber ∷ []) ≡ some ((climber, landing) ∷ [])
unfolding ladder next_place drop is_taken
climbs = refl

ladder-Laddered_example :
    Laddered four_days (2 * day ∷ []) (0 ∷ []) (climber ∷ []) ((climber, landing) ∷ [])
ladder-Laddered_example =
    ladder-Laddered four_days (2 * day ∷ []) (0 ∷ []) (climber ∷ []) ((climber, landing) ∷ [])
      climbs

times_after : Option Channel → List (Option ℕ)
times_after none = []
times_after (some c) = map (λ row. row.scheduled_at) c.rows

-- The new post takes the first Friday slot; the rows of the queue climb, each behind its old slot.
prioritize_laddered :
    times_after (prioritize 0 utc slots 23 9 channel)
    ≡ some (4 * day + 8) ∷ some (8 * day + 9) ∷ some (day + 9) ∷ []
unfolding times_after prioritize movable movers index_of ladder_of ladder next_place drop avoided
    descending next_slot_datetimes platform_post_for is_protected upcoming slots_from slots_on
    active_slots sort_by is_taken ensure_entry occupied_datetimes distinct write_slot
    sync_post_scheduled_at update
prioritize_laddered = refl
