-- ===== src/Calendar/Queue.antt =====
-- The queue of a channel in apps/calendar/services.py: placing a post in the first gap and the drag
-- reorder, with `sync_post_scheduled_at` of apps/composer/services.py. The lock of the channel makes
-- each operation one step.
pub mod Placing
use ai_social_brightbean_stu.Common.{
  ℕ, zero, suc, ◌+◌, min, max, Bool, true, false, not, ◌&&◌, Option, none, some, List, [], ◌∷◌,
  ◌++◌, map, ◌==◌, if◌then◌else◌, sort_by, is_some,
}
use ai_social_brightbean_stu.Composer.PlatformPost.{PlatformPost, Post, is_protected}
use ai_social_brightbean_stu.Composer.Rows.{Rows, update, siblings}
use ai_social_brightbean_stu.Calendar.Slots.{PostingSlot, SlotTime, Zone, next_available_slot}

pub record QueueEntry : Type 0 where
  pub id : ℕ
  pub post_id : ℕ
  pub position : ℕ
  pub assigned_slot_datetime : Option ℕ

-- The queue of one account with the tables that its operations write.
pub record Channel : Type 0 where
  pub social_account : ℕ
  pub entries : List QueueEntry
  pub rows : Rows
  pub post_of : ℕ → Post

-- `_platform_post_for`
unfoldable pub platform_post_for : ℕ → ℕ → Rows → Option PlatformPost
platform_post_for account post_id [] = none
platform_post_for account post_id (row ∷ rows) =
    let rest = platform_post_for account post_id rows in
    if row.post_id == post_id && row.social_account == account then some row else rest

earlier : Option ℕ → Option ℕ → Option ℕ
earlier none b = b
earlier (some a) none = some a
earlier (some a) (some b) = some (min a b)

unfoldable pub earliest : Rows → Option ℕ
unfolding earlier
earliest [] = none
earliest (row ∷ rows) = earlier row.scheduled_at (earliest rows)

abbrev is_at : ℕ → Option ℕ → Bool
is_at t none = false
is_at t (some old) = old == t

synced_post : ℕ → Option ℕ → Post → Post
synced_post now none post = elim post.scheduled_at [
  | none ↦ post
  | some t ↦ record post { scheduled_at = none; updated_at = now }
]
synced_post now (some t) post =
    if is_at t post.scheduled_at && not (is_some post.proposed_publish_at)
    then post
    else record post { scheduled_at = some t; proposed_publish_at = none; updated_at = now }

-- `sync_post_scheduled_at`
unfoldable pub sync_post_scheduled_at : ℕ → ℕ → Channel → Channel
unfolding synced_post
sync_post_scheduled_at now post_id c = record c {
  post_of = λ key.
      if key == post_id
      then synced_post now (earliest (siblings post_id c.rows)) (c.post_of key)
      else c.post_of key;
}

unfoldable pub update_entry : ℕ → (QueueEntry → QueueEntry) → List QueueEntry → List QueueEntry
update_entry key change [] = []
update_entry key change (e ∷ es) =
    (if e.id == key then change e else e) ∷ update_entry key change es

abbrev pub at_slot : ℕ → ℕ → PlatformPost → PlatformPost
at_slot now slot row = record row { scheduled_at = some slot; updated_at = now }

assign : ℕ → ℕ → Channel → Channel
unfolding update_entry
assign entry slot c = record c {
  entries = update_entry entry (λ e. record e { assigned_slot_datetime = some slot }) c.entries;
}

-- `_write_slot`
unfoldable pub write_slot : ℕ → ℕ → Option PlatformPost → ℕ → Channel → Channel
unfolding assign
write_slot now entry none slot c = assign entry slot c
write_slot now entry (some pp) slot c =
    let assigned = assign entry slot c in
    sync_post_scheduled_at now pp.post_id
      (record assigned { rows = update pp.id (λ row. true) (at_slot now slot) assigned.rows })

entry_of : ℕ → List QueueEntry → Option QueueEntry
entry_of post_id [] = none
entry_of post_id (e ∷ es) =
    let rest = entry_of post_id es in if e.post_id == post_id then some e else rest

last_position : List QueueEntry → ℕ
last_position [] = 0
last_position (e ∷ es) = max e.position (last_position es)

-- `_ensure_entry`: the entry's id and the channel with it; `new_id` is the id of a created row.
unfoldable pub ensure_entry : ℕ → ℕ → Channel → ℕ × Channel
unfolding entry_of last_position
ensure_entry new_id post_id c = elim (entry_of post_id c.entries) [
  | some e ↦ (e.id, c)
  | none ↦ (
    new_id,
    record c {
      entries =
          c.entries
          ++ (record {
            id = new_id;
            post_id = post_id;
            position = last_position c.entries + 1;
            assigned_slot_datetime = none;
          }
              ∷ []);
    },
  )
]

abbrev pub own_id : Option PlatformPost → List ℕ
own_id none = []
own_id (some pp) = pp.id ∷ []

abbrev pub protected_child : Option PlatformPost → Bool
protected_child none = false
protected_child (some pp) = is_protected pp.status

place : ℕ → ℕ → ℕ → Option PlatformPost → Option SlotTime → Channel → Option Channel
place now new_id post_id pp none c = none
place now new_id post_id pp (some t) c =
    let (entry, ensured) = ensure_entry new_id post_id c in
    some (write_slot now entry pp t.instant ensured)

place_child : ℕ → Zone → List PostingSlot → ℕ → ℕ → Option PlatformPost → Channel → Option Channel
unfolding place
place_child now zone slots new_id post_id pp c =
    if protected_child pp
    then some c
    else place now new_id post_id pp
        (next_available_slot zone slots now c.social_account now (own_id pp) c.rows) c

-- `add_post_next_available`; `none` is `QueueFullError`.
unfoldable pub add_post_next_available :
    ℕ → Zone → List PostingSlot → ℕ → ℕ → Channel → Option Channel
unfolding place_child
add_post_next_available now zone slots new_id post_id c =
    place_child now zone slots new_id post_id (platform_post_for c.social_account post_id c.rows) c
