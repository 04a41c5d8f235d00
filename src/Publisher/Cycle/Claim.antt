-- ===== src/Publisher/Cycle/Claim.antt =====
-- The transaction that takes rows from `scheduled` to `publishing`.
use ai_social_brightbean_stu.Common.{
  ℕ, ◌≡◌, inl, inr, refl, Bool, true, false, not, ◌&&◌, none, some, [], ◌∷◌, arith, ◌==◌,
  if◌then◌else◌, filter, any, All, In, filter-In, All-map, Bool-cases,
}
use ai_social_brightbean_stu.Composer.Status.{scheduled, ◌is◌}
use ai_social_brightbean_stu.Composer.PlatformPost.{PlatformPost}
use ai_social_brightbean_stu.Composer.Rows.{Rows, find, is_held}
use ai_social_brightbean_stu.Composer.Rows.Laws.{updated, IsKeyed, In-find}
use ai_social_brightbean_stu.Publisher.Cycle.{
  is_listed, claimable, set_publishing, mark_publishing, claim,
}

module _ (now : ℕ) (claimed : Rows) where
  find-mark :
      (key : ℕ) (rows : Rows)
      → find key (mark_publishing now claimed rows)
        ≡ updated (is_listed claimed) (set_publishing now) (find key rows)
  unfolding find mark_publishing
  find-mark key [] = refl
  find-mark key (row ∷ rows) = ground (arith, find-mark key rows)

  mark-IsKeyed : (rows : Rows) → IsKeyed rows → IsKeyed (mark_publishing now claimed rows)
  unfolding mark_publishing
  mark-IsKeyed [] k = tt
  mark-IsKeyed (row ∷ rows) k = (ground (arith, find-mark row.id rows), mark-IsKeyed rows k.1)

-- A key that the table lacks is on no list taken from it.
unlisted :
    (p : PlatformPost → Bool) (key : ℕ) (rows : Rows)
    → find key rows ≡ none
    → any (λ d. d.id == key) (filter p rows) ≡ false
unfolding find
unlisted p key [] h = refl
unlisted p key (row ∷ rows) h = ground (arith, unlisted p key rows)

listed-filter :
    (p : PlatformPost → Bool) (key : ℕ) (rows : Rows) (row : PlatformPost)
    → IsKeyed rows
    → find key rows ≡ some row
    → any (λ d. d.id == key) (filter p rows) ≡ p row
unfolding find
listed-filter p key [] row k h = ground arith
listed-filter p key (first ∷ rows) row k h =
    ground (arith, unlisted p key rows, listed-filter p key rows row k.1, k.0)

-- The test that a row must pass to be claimed.
abbrev pub passes : ℕ → Rows → Rows → PlatformPost → Bool
passes post_id due rows row =
    not (is_held post_id rows)
    && (row.post_id == post_id && (is_listed due row && row.status is scheduled))

listed-claimable :
    (post_id : ℕ) (due rows : Rows) (row : PlatformPost)
    → IsKeyed rows
    → find row.id rows ≡ some row
    → is_listed (claimable post_id due rows) row
      ≡ (row.post_id == post_id && (is_listed due row && row.status is scheduled))
unfolding claimable
listed-claimable post_id due rows row keyed found =
    listed-filter (λ r. r.post_id == post_id && (is_listed due r && r.status is scheduled)) row.id
      rows row keyed found

-- Exactly the rows of the post that the group was given and that are still `scheduled` under the
-- lock go to `publishing`, and none while a row of the post is on hold; every other row stays.
pub claim_effect :
    (now post_id : ℕ) (due rows : Rows) (row : PlatformPost)
    → IsKeyed rows
    → find row.id rows ≡ some row
    → find row.id (claim now post_id due rows).1
      ≡ some (if passes post_id due rows row then set_publishing now row else row)
unfolding claim
claim_effect now post_id due rows row keyed found = elim (Bool-cases (is_held post_id rows)) [
  | inl h ↦ simp h found
  | inr h ↦
      simp (h, find-mark now (claimable post_id due rows) row.id rows, found)
        (ground (arith, listed-claimable post_id due rows row keyed found))
]

pub claim-IsKeyed :
    (now post_id : ℕ) (due rows : Rows) → IsKeyed rows → IsKeyed (claim now post_id due rows).1
unfolding claim
claim-IsKeyed now post_id due rows keyed = elim (Bool-cases (is_held post_id rows)) [
  | inl h ↦ simp h keyed
  | inr h ↦ simp h (mark-IsKeyed now (claimable post_id due rows) rows keyed)
]

-- A row that is not `scheduled` in the table is on no list that a claim returns.
unclaimed :
    (now post_id : ℕ) (due rows : Rows) (row : PlatformPost)
    → IsKeyed rows
    → find row.id rows ≡ some row
    → (row.status is scheduled) ≡ false
    → is_listed (claim now post_id due rows).0 row ≡ false
unfolding claim
unclaimed now post_id due rows row keyed found other = elim (Bool-cases (is_held post_id rows)) [
  | inl h ↦ simp h refl
  | inr h ↦ simp h (ground (arith, listed-claimable post_id due rows row keyed found))
]

-- Two workers that claim one after the other, from any lists that they loaded before, never take
-- the same row: no row of the first claim is in the second.
pub claim_once :
    (now later post_id post_id' : ℕ) (due due' rows : Rows)
    → IsKeyed rows
    → All
        (λ row. is_listed (claim later post_id' due' (claim now post_id due rows).1).0 row ≡ false)
        (claim now post_id due rows).0
claim_once now later post_id post_id' due due' rows keyed =
    elim (Bool-cases (is_held post_id rows)) [
      | inl h ↦ unfold claim in simp h tt
      | inr h ↦
          rw (taken h) (
            All-map _ _ (claimable post_id due rows) (once h)
              (unfold claimable in filter-In _ rows))
    ]
  where
    taken :
        is_held post_id rows ≡ false → (claim now post_id due rows).0 ≡ claimable post_id due rows
    taken h = unfold claim in simp h

    once :
        is_held post_id rows ≡ false
        → (row : PlatformPost)
        → In row rows
          × ((row.post_id == post_id && (is_listed due row && row.status is scheduled)) ≡ true)
        → is_listed (claim later post_id' due' (claim now post_id due rows).1).0 row ≡ false
    once h row m =
        unclaimed later post_id' due' (claim now post_id due rows).1 (set_publishing now row)
          (claim-IsKeyed now post_id due rows keyed)
          (ground (
            arith,
            claim_effect now post_id due rows row keyed (In-find rows row keyed m.0),
            h,
            m.1,
          ))
          (unfold ◌is◌ in refl)
