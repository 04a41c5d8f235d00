-- ===== src/Composer/Rows.antt =====
-- The table of `PlatformPost` rows, as Django's managers give access to it: a list in the order of
-- the default query, searched by primary key, and the ways in which the code writes it.
pub mod Laws
use ai_social_brightbean_stu.Common.{
  ℕ, Bool, true, false, ◌&&◌, ◌||◌, Option, none, some, List, [], ◌∷◌, ◌==◌, if◌then◌else◌, any,
  filter,
}
use ai_social_brightbean_stu.Composer.Status.{on_hold, ◌is◌}
use ai_social_brightbean_stu.Composer.PlatformPost.{PlatformPost}

abbrev pub Rows : Type 0
Rows = List PlatformPost

-- `get(pk=key)`
unfoldable pub find : ℕ → Rows → Option PlatformPost
find key [] = none
find key (row ∷ rows) = let rest = find key rows in if row.id == key then some row else rest

-- `filter(id=key, test).update(change)`
unfoldable pub update : ℕ → (PlatformPost → Bool) → (PlatformPost → PlatformPost) → Rows → Rows
update key test change [] = []
update key test change (row ∷ rows) =
    (if row.id == key && test row then change row else row) ∷ update key test change rows

-- Whether that update has a row to change.
unfoldable pub matches : ℕ → (PlatformPost → Bool) → Rows → Bool
matches key test [] = false
matches key test (row ∷ rows) = (row.id == key && test row) || matches key test rows

-- `row.save()` of an object loaded earlier: every column is written, `updated_at` by `auto_now`.
unfoldable pub save : ℕ → PlatformPost → Rows → Rows
unfolding update
save now pp rows = update pp.id (λ _. true) (λ _. record pp { updated_at = now }) rows

-- `filter(post_id=key)`
unfoldable pub siblings : ℕ → Rows → Rows
siblings key rows = filter (λ row. row.post_id == key) rows

-- A row of this post is on hold.
unfoldable pub is_held : ℕ → Rows → Bool
is_held key rows = any (λ row. row.post_id == key && row.status is on_hold) rows
