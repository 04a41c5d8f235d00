-- ===== src/Publisher/PostType.antt =====
-- `_hint_matches_media` and `_resolve_post_type` of apps/publisher/engine.py with the `PostType` of
-- providers/types.py: which endpoint a post is sent to.
use ai_social_brightbean_stu.Common.{
  ℕ, ◌≡◌, ◌<◌, ◌≤◌, ◌⊎◌, Bool, true, false, ◌&&◌, Option, some, ltb, ◌==◌, if◌then◌else◌, arith,
}

pub data PostType : Type 0 where
  text image video carousel story reel link article poll pin short : PostType

-- The platforms that the rules name; `other_platform` is any other.
pub data Platform : Type 0 where
  pinterest instagram instagram_login threads other_platform : Platform

-- The media type of the first attachment.
pub data MediaKind : Type 0 where
  video_media image_media other_media : MediaKind

-- The hint of `platform_extra`: none or empty, a word that is no post type, or a post type.
pub data Hint : Type 0 where
  no_hint invalid_hint : Hint
  hint : PostType → Hint

is_video : Option MediaKind → Bool
is_video (some video_media) = true
is_video _ = false

unfoldable pub hint_matches_media : PostType → ℕ → Option MediaKind → Bool
unfolding is_video
hint_matches_media reel count first = count == 1 && is_video first
hint_matches_media video count first = is_video first
hint_matches_media _ count first = true

abbrev pub is_instagram : Platform → Bool
is_instagram instagram = true
is_instagram instagram_login = true
is_instagram _ = false

abbrev pub makes_carousels : Platform → Bool
makes_carousels threads = true
makes_carousels p = is_instagram p

by_media : Platform → Option MediaKind → PostType
by_media platform (some video_media) = if is_instagram platform then reel else video
by_media platform (some image_media) = image
by_media platform _ = text

-- The rules below the hint.
default_type : Platform → ℕ → Option MediaKind → PostType
unfolding by_media
default_type pinterest count first = pin
default_type platform count first =
    if ltb 1 count && makes_carousels platform then carousel else by_media platform first

unfoldable pub resolve_post_type : Platform → Hint → ℕ → Option MediaKind → PostType
unfolding default_type
resolve_post_type platform (hint t) count first =
    if hint_matches_media t count first then t else default_type platform count first
resolve_post_type platform _ count first = default_type platform count first

-- Whatever the hint: a post goes to the video endpoint only with a video in front, and on Instagram
-- only if the hint says so; it goes to the Reels endpoint only with a video in front and at most one
-- attachment; and without a hint for it, it is a carousel only with several attachments, on a
-- platform that has carousels.
pub post_type_fits :
    (platform : Platform) (h : Hint) (count : ℕ) (first : Option MediaKind)
    → (resolve_post_type platform h count first ≡ video
        → (first ≡ some video_media) × (is_instagram platform ≡ true → h ≡ hint video))
      × (resolve_post_type platform h count first ≡ reel → (first ≡ some video_media) × (count ≤ 1))
      × (resolve_post_type platform h count first ≡ carousel
          → (h ≡ hint carousel) ⊎ ((1 < count) × (makes_carousels platform ≡ true)))
unfolding resolve_post_type hint_matches_media
post_type_fits platform h count first = ground arith
