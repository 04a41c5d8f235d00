-- ===== src/Calendar/Priority.antt =====
-- `prioritize` of apps/calendar/services.py: a post takes the earliest slot of its channel, and the
-- entries of the queue climb to later ones. The candidates are always the first of the upcoming
-- slots, so that a longer list of them is a longer part of the same list.
pub mod Ladder
use ai_social_brightbean_stu.Common.{
  ℕ, zero, suc, ◌+◌, ◌-◌, Bool, true, false, not, ◌&&◌, ◌||◌, Option, none, some, List, [], ◌∷◌,
  map, any, ltb, ◌==◌, if◌then◌else◌, sort_by, filter, length,
}
use ai_social_brightbean_stu.Composer.PlatformPost.{PlatformPost}
use ai_social_brightbean_stu.Calendar.Slots.{
  PostingSlot, SlotTime, Zone, upcoming, next_slot_datetimes, occupied_datetimes, is_taken,
  next_available_slot,
}
use ai_social_brightbean_stu.Calendar.Queue.{
  QueueEntry, Channel, platform_post_for, protected_child, own_id, ensure_entry, write_slot,
}
use ai_social_brightbean_stu.Calendar.Reorder.{Slotted}

with_time : ℕ → QueueEntry → PlatformPost → Option ℕ → List Slotted → List Slotted
with_time now e pp none rest = rest
with_time now e pp (some t) rest =
    if ltb now t then record { entry = e.id; row = pp; time = t } ∷ rest else rest

with_child : ℕ → QueueEntry → Option PlatformPost → List Slotted → List Slotted
unfolding with_time
with_child now e none rest = rest
with_child now e (some pp) rest =
    if protected_child (some pp) then rest else with_time now e pp pp.scheduled_at rest

-- The entries other than the post's whose rows hold a future time and may move.
unfoldable pub movable : ℕ → ℕ → Channel → List QueueEntry → List Slotted
unfolding with_child
movable now post_id c [] = []
movable now post_id c (e ∷ es) =
    let rest = movable now post_id c es in
    if e.post_id == post_id
    then rest
    else with_child now e (platform_post_for c.social_account e.post_id c.rows) rest

-- The index of a time among the candidates, the last where there are several.
unfoldable pub index_of : ℕ → ℕ → List SlotTime → Option ℕ
index_of i time [] = none
index_of i time (t ∷ ts) = elim (index_of (i + 1) time ts) [
  | some j ↦ some j
  | none ↦ if is_taken t (time ∷ []) then some i else none
]

-- An entry with the index of the candidate that it holds.
pub record Mover : Type 0 where
  pub index : ℕ
  pub held : Slotted

with_index : Slotted → Option ℕ → List Mover → List Mover
with_index s none rest = rest
with_index s (some i) rest = record { index = i; held = s } ∷ rest

unfoldable pub movers : List SlotTime → List Slotted → List Mover
unfolding with_index
movers candidates [] = []
movers candidates (s ∷ ss) =
    let rest = movers candidates ss in with_index s (index_of 0 s.time candidates) rest

-- The movers with the latest first.
unfoldable pub descending : ℕ → List Mover → List Mover
descending bound ms = sort_by (λ m. bound - m.index) ms

-- Where a mover lands, and the slot there.
pub record Place : Type 0 where
  pub index : ℕ
  pub slot : SlotTime

unfoldable pub drop : ℕ → List SlotTime → List SlotTime
drop zero ts = ts
drop (suc n) [] = []
drop (suc n) (t ∷ ts) = drop n ts

-- The `while` loop: the first index from `j` on that no mover has and whose slot is not to be avoided.
unfoldable pub next_place : ℕ → List ℕ → List ℕ → List SlotTime → Option Place
next_place j assigned avoid [] = none
next_place j assigned avoid (t ∷ ts) =
    let rest = next_place (j + 1) assigned avoid ts in
    if not (any (λ i. i == j) assigned) && not (is_taken t avoid)
    then some (record { index = j; slot = t })
    else rest

-- The `for` loop; `none` is `QueueFullError`, which undoes the moves before it.
unfoldable pub ladder : List SlotTime → List ℕ → List ℕ → List Mover → Option (List (Mover × Place))
ladder slots avoid assigned [] = some []
ladder slots avoid assigned (m ∷ ms) =
    elim (next_place (m.index + 1) assigned avoid (drop (m.index + 1) slots)) [
      | none ↦ none
      | some p ↦ elim (ladder slots avoid (p.index ∷ assigned) ms) [
        | none ↦ none
        | some rest ↦ some ((m, p) ∷ rest)
      ]
    ]

write_places : ℕ → List (Mover × Place) → Channel → Channel
write_places now [] c = c
write_places now ((m, p) ∷ rest) c =
    write_places now rest (write_slot now m.held.entry (some m.held.row) p.slot.instant c)

-- The occupied instants without those of the movers.
unfoldable pub avoided : List ℕ → List Mover → List ℕ
avoided occupied ms = filter (λ o. not (any (λ m. m.held.time == o) ms)) occupied

-- The slot at the front is free among the queue's own entries; another post may still hold it.
place_front :
    ℕ → Zone → List PostingSlot → ℕ → Option PlatformPost → SlotTime → Channel → Option Channel
place_front now zone slots entry pp target c =
    if is_taken target (occupied_datetimes now c.social_account (own_id pp) c.rows)
    then elim (next_available_slot zone slots now c.social_account now (own_id pp) c.rows) [
      | none ↦ none
      | some free ↦ some (write_slot now entry pp free.instant c)
    ]
    else some (write_slot now entry pp target.instant c)

-- The movers with the places of the ladder; index 0 is the post's.
unfoldable pub ladder_of :
    ℕ
    → Zone
    → List PostingSlot
    → List SlotTime
    → Option PlatformPost
    → List Slotted
    → Channel
    → Option (List (Mover × Place))
ladder_of now zone slots candidates pp held c =
    let ms = movers candidates held in
    let avoid = avoided (occupied_datetimes now c.social_account (own_id pp) c.rows) ms in
    ladder (upcoming zone slots c.social_account now) avoid (0 ∷ [])
      (descending (length candidates) ms)

place_laddered :
    ℕ
    → ℕ
    → Option PlatformPost
    → SlotTime
    → Option (List (Mover × Place))
    → Channel
    → Option Channel
unfolding write_places
place_laddered now entry pp target none c = none
place_laddered now entry pp target (some places) c =
    some (write_slot now entry pp target.instant (write_places now places c))

place_first :
    ℕ
    → Zone
    → List PostingSlot
    → ℕ
    → ℕ
    → Option PlatformPost
    → List Slotted
    → List SlotTime
    → Channel
    → Option Channel
unfolding place_front place_laddered
place_first now zone slots new_id post_id pp held [] c = none
place_first now zone slots new_id post_id pp held (target ∷ later) c =
    let (entry, ensured) = ensure_entry new_id post_id c in
    if is_taken target (map (λ s. s.time) held)
    then place_laddered now entry pp target
        (ladder_of now zone slots (target ∷ later) pp held ensured) ensured
    else place_front now zone slots entry pp target ensured

-- `prioritize`; `none` is `QueueFullError`, with which the transaction leaves the channel as it was.
unfoldable pub prioritize : ℕ → Zone → List PostingSlot → ℕ → ℕ → Channel → Option Channel
unfolding place_first
prioritize now zone slots new_id post_id c =
    let held = movable now post_id c c.entries in
    place_first now zone slots new_id post_id (platform_post_for c.social_account post_id c.rows)
      held (next_slot_datetimes zone slots c.social_account now (length held + 2)) c
