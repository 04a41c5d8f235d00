-- ===== src/Composer/Status.antt =====
-- apps/composer/status.py and the `Status` choices of `PlatformPost` in apps/composer/models.py.
-- A child's status is one of eleven words. `partially_published` is a word of the aggregate alone.
pub mod Members
pub mod Aggregate
use ai_social_brightbean_stu.Common.{
  ℕ, ◌≡◌, refl, Bool, true, false, ◌&&◌, ◌||◌, Option, none, some, List, [], ◌∷◌, arith, ltb, ◌==◌,
  if◌then◌else◌, length, any, all,
}

pub data Status : Type 0 where
  draft pending_review pending_client approved changes_requested rejected : Status
  scheduled publishing published failed on_hold : Status

pub data PostStatus : Type 0 where
  child : Status → PostStatus
  partially_published : PostStatus

-- A number for each word, by which two words are compared.
unfoldable pub word : Status → ℕ
word draft = 0
word pending_review = 1
word pending_client = 2
word approved = 3
word changes_requested = 4
word rejected = 5
word scheduled = 6
word publishing = 7
word published = 8
word failed = 9
word on_hold = 10

infix 50 ◌is◌
unfoldable pub ◌is◌ : Status → Status → Bool
unfolding word
s is t = word s == word t

post_word : PostStatus → ℕ
unfolding word
post_word (child s) = word s
post_word partially_published = 11

-- `_WORKFLOW_ORDER`; `failed` is not in it.
pub workflow_order : List PostStatus
workflow_order =
    child draft
    ∷ child changes_requested
    ∷ child rejected
    ∷ child on_hold
    ∷ child pending_review
    ∷ child pending_client
    ∷ child approved
    ∷ child scheduled
    ∷ child publishing
    ∷ partially_published
    ∷ child published
    ∷ []

-- `list.index`, with the list's length where it raises `ValueError`.
pub index_or_length : PostStatus → List PostStatus → ℕ
index_or_length s [] = 0
index_or_length s (t ∷ ts) =
    let rest = index_or_length s ts in if post_word t == post_word s then 0 else ℕ.suc rest

unfoldable pub rank : Status → ℕ
unfolding workflow_order index_or_length post_word
rank s = index_or_length (child s) workflow_order

-- `_TERMINAL`
pub is_terminal : Status → Bool
is_terminal s = s is published || s is failed

-- `[s for s in statuses if s]`; `none` is an empty status.
unfoldable pub present : List (Option Status) → List Status
present [] = []
present (none ∷ xs) = present xs
present (some s ∷ xs) = s ∷ present xs

-- `s in xs`
abbrev pub has : List Status → Status → Bool
has xs s = any (λ t. t is s) xs

-- `set(xs)`, as a list with no word twice.
pub unique : List Status → List Status
unique [] = []
unique (x ∷ xs) = let rest = unique xs in if has xs x then rest else x ∷ rest

pub lower : Status → Status → Status
lower x y = if ltb (rank y) (rank x) then y else x

-- `min(xs, key=_rank)`: the first of the least.
pub lowest : Status → List Status → Status
unfolding lower
lowest x [] = x
lowest x (y ∷ ys) = lowest (lower x y) ys

-- The branch in which every child is published or failed.
pub combine_terminal : List Status → PostStatus
combine_terminal words =
    if has words published && has words failed
    then partially_published
    else if all (λ s. s is published) words
    then child published
    else child failed

pub surface : Status → List Status → PostStatus
surface result words =
    if result is on_hold && has words published then partially_published else child result

-- The tests after `values` is known not to be empty.
pub derive_values : Status → List Status → PostStatus
unfolding unique lowest is_terminal combine_terminal surface
derive_values v vs =
    let words = unique (v ∷ vs) in
    if length words == 1
    then child v
    else if all is_terminal words
    then combine_terminal words
    else surface (lowest v vs) words

pub derive_nonempty : List Status → PostStatus
unfolding derive_values
derive_nonempty [] = child draft
derive_nonempty (v ∷ vs) = derive_values v vs

unfoldable pub derive_post_status : List (Option Status) → PostStatus
unfolding present derive_nonempty
derive_post_status statuses = derive_nonempty (present statuses)
