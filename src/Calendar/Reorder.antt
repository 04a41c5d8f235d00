-- ===== src/Calendar/Reorder.antt =====
-- `reorder_queue` of apps/calendar/services.py: a drag gives the slots that are held to the same
-- entries in another order.
pub mod Redistribution
use ai_social_brightbean_stu.Common.{
  ℕ, zero, suc, ◌+◌, Bool, true, false, not, ◌&&◌, Option, none, some, List, [], ◌∷◌, map, ◌==◌,
  if◌then◌else◌, sort_by,
}
use ai_social_brightbean_stu.Composer.PlatformPost.{PlatformPost}
use ai_social_brightbean_stu.Calendar.Queue.{
  QueueEntry, Channel, platform_post_for, protected_child, update_entry, write_slot,
}

find_entry : ℕ → List QueueEntry → Option QueueEntry
find_entry key [] = none
find_entry key (e ∷ es) = let rest = find_entry key es in if e.id == key then some e else rest

abbrev pub Named : Type 0
Named = QueueEntry × Option PlatformPost

with_child : QueueEntry → Option PlatformPost → List Named → List Named
with_child e pp rest = if protected_child pp then rest else (e, pp) ∷ rest

with_entry : Channel → Option QueueEntry → List Named → List Named
unfolding with_child
with_entry c none rest = rest
with_entry c (some e) rest = with_child e (platform_post_for c.social_account e.post_id c.rows) rest

-- The movable entries that the ids name, in their order, each with its row.
unfoldable pub named : Channel → List ℕ → List Named
unfolding find_entry with_entry
named c [] = []
named c (key ∷ keys) = let rest = named c keys in with_entry c (find_entry key c.entries) rest

-- An entry whose row holds a time.
pub record Slotted : Type 0 where
  pub entry : ℕ
  pub row : PlatformPost
  pub time : ℕ

with_time : QueueEntry → PlatformPost → Option ℕ → List Slotted → List Slotted
with_time e pp none rest = rest
with_time e pp (some t) rest = record { entry = e.id; row = pp; time = t } ∷ rest

with_row : QueueEntry → Option PlatformPost → List Slotted → List Slotted
unfolding with_time
with_row e none rest = rest
with_row e (some pp) rest = with_time e pp pp.scheduled_at rest

unfoldable pub slotted : List Named → List Slotted
unfolding with_row
slotted [] = []
slotted ((e, pp) ∷ rest) = let more = slotted rest in with_row e pp more

-- One slot for each entry; the two lists are equally long.
unfoldable pub write_slots : ℕ → List Slotted → List ℕ → Channel → Channel
write_slots now (s ∷ ss) (t ∷ ts) c =
    write_slots now ss ts (write_slot now s.entry (some s.row) t c)
write_slots now _ _ c = c

unfoldable pub reposition : ℕ → List Named → Channel → Channel
reposition index [] c = c
reposition index ((e, pp) ∷ rest) c =
    reposition (index + 1) rest
      (record c { entries = update_entry e.id (λ x. record x { position = index }) c.entries })

-- The times that the entries hold, the earliest first.
unfoldable pub held_slots : List Slotted → List ℕ
held_slots ss = sort_by (λ t. t) (map (λ s. s.time) ss)

-- `reorder_queue`
unfoldable pub reorder_queue : ℕ → List ℕ → Channel → Channel
reorder_queue now keys c =
    let ordered = named c keys in
    reposition 0 ordered (write_slots now (slotted ordered) (held_slots (slotted ordered)) c)
