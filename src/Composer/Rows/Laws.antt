-- ===== src/Composer/Rows/Laws.antt =====
-- What a lookup sees after a write.
use ai_social_brightbean_stu.Common.{
  ℕ, ◌≡◌, ◌≢◌, refl, ap, ◌∙◌, Bool, true, false, Option, none, some, [], ◌∷◌, if◌then◌else◌, arith,
  ==_refl, inl, inr, All, All-map, In, filter, filter-In, Bool-cases,
}
use ai_social_brightbean_stu.Composer.PlatformPost.{PlatformPost}
use ai_social_brightbean_stu.Composer.Rows.{Rows, find, update, matches, save}

-- What an update of the row `key` leaves at `key`.
abbrev pub updated :
    (PlatformPost → Bool)
    → (PlatformPost → PlatformPost)
    → Option PlatformPost
    → Option PlatformPost
updated test change none = none
updated test change (some row) = some (if test row then change row else row)

module _ (key : ℕ) (test : PlatformPost → Bool) (change : PlatformPost → PlatformPost)
    (keeps : (row : PlatformPost) → row.id ≡ key → (change row).id ≡ key) where
  pub find-update_self :
      (rows : Rows) → find key (update key test change rows) ≡ updated test change (find key rows)
  unfolding find update
  find-update_self [] = refl
  find-update_self (row ∷ rows) = ground (arith, keeps row, find-update_self rows)

  pub find-update_ne :
      (other : ℕ) (rows : Rows)
      → other ≢ key
      → find other (update key test change rows) ≡ find other rows
  unfolding find update
  find-update_ne other [] n = refl
  find-update_ne other (row ∷ rows) n = ground (arith, keeps row, find-update_ne other rows n)

pub find-id : (key : ℕ) (rows : Rows) (row : PlatformPost) → find key rows ≡ some row → row.id ≡ key
unfolding find
find-id key [] row h = ground arith
find-id key (first ∷ rows) row h = ground (arith, find-id key rows row)

-- The primary key: no two rows share an id.
abbrev pub IsKeyed : Rows → Type 0
IsKeyed [] = Unit
IsKeyed (row ∷ rows) = (find row.id rows ≡ none) × IsKeyed rows

abbrev pub holds_at : (PlatformPost → Bool) → Option PlatformPost → Bool
holds_at test none = false
holds_at test (some row) = test row

matches-none :
    (key : ℕ) (test : PlatformPost → Bool) (rows : Rows)
    → find key rows ≡ none
    → matches key test rows ≡ false
unfolding find matches
matches-none key test [] h = refl
matches-none key test (row ∷ rows) h = ground (arith, matches-none key test rows)

-- The row count of an update on a primary key tells whether the row passes the test.
pub matches-find :
    (key : ℕ) (test : PlatformPost → Bool) (rows : Rows)
    → IsKeyed rows
    → matches key test rows ≡ holds_at test (find key rows)
unfolding find matches
matches-find key test [] k = refl
matches-find key test (row ∷ rows) k =
    ground (arith, matches-none key test rows, matches-find key test rows k.1)

module _ (now : ℕ) (pp : PlatformPost) where
  pub find-save_self :
      (rows : Rows) (old : PlatformPost)
      → find pp.id rows ≡ some old
      → find pp.id (save now pp rows) ≡ some (record pp { updated_at = now })
  unfolding save
  find-save_self rows old h =
      find-update_self pp.id (λ _. true) (λ _. record pp { updated_at = now }) (λ row e. refl) rows
      ∙ ap (updated (λ _. true) (λ _. record pp { updated_at = now })) h

  pub find-save_ne :
      (other : ℕ) (rows : Rows) → other ≢ pp.id → find other (save now pp rows) ≡ find other rows
  unfolding save
  find-save_ne other rows n =
      find-update_ne pp.id (λ _. true) (λ _. record pp { updated_at = now }) (λ row e. refl) other
        rows n

pub In-find :
    (rows : Rows) (row : PlatformPost) → IsKeyed rows → In row rows → find row.id rows ≡ some row
unfolding find
In-find [] row k m = absurd m
In-find (first ∷ rows) row k (inl e) = rw e (rw (==_refl first.id) refl)
In-find (first ∷ rows) row k (inr m) = ground (arith, In-find rows row k.1 m, k.0)

find-filter-none :
    (p : PlatformPost → Bool) (key : ℕ) (rows : Rows)
    → find key rows ≡ none
    → find key (filter p rows) ≡ none
unfolding find
find-filter-none p key [] h = refl
find-filter-none p key (row ∷ rows) h = ground (arith, find-filter-none p key rows)

pub find-filter :
    (p : PlatformPost → Bool) (key : ℕ) (rows : Rows) (row : PlatformPost)
    → IsKeyed rows
    → find key rows ≡ some row
    → find key (filter p rows) ≡ (if p row then some row else none)
unfolding find
find-filter p key [] row k h = ground arith
find-filter p key (first ∷ rows) row k h =
    ground (arith, find-filter-none p key rows, find-filter p key rows row k.1, k.0)

pub filter-IsKeyed :
    (p : PlatformPost → Bool) (rows : Rows) → IsKeyed rows → IsKeyed (filter p rows)
filter-IsKeyed p [] k = tt
filter-IsKeyed p (row ∷ rows) k = elim (Bool-cases (p row)) [
  | inl h ↦ rw h (find-filter-none p row.id rows k.0, filter-IsKeyed p rows k.1)
  | inr h ↦ rw h (filter-IsKeyed p rows k.1)
]

-- The rows taken from a table are in it.
pub filter_present :
    (p : PlatformPost → Bool) (rows : Rows)
    → IsKeyed rows
    → All (λ t. find t.id rows ≡ some t) (filter p rows)
filter_present p rows k =
    All-map _ _ (filter p rows) (λ row m. In-find rows row k m.0) (filter-In p rows)

find-update-none :
    (key id : ℕ) (test : PlatformPost → Bool) (change : PlatformPost → PlatformPost) (rows : Rows)
    → ((r : PlatformPost) → (change r).id ≡ r.id)
    → find key rows ≡ none
    → find key (update id test change rows) ≡ none
unfolding find update
find-update-none key id test change [] same h = refl
find-update-none key id test change (row ∷ rows) same h =
    ground (arith, same row, find-update-none key id test change rows same)

pub update-IsKeyed :
    (id : ℕ) (test : PlatformPost → Bool) (change : PlatformPost → PlatformPost)
    → ((r : PlatformPost) → (change r).id ≡ r.id)
    → (rows : Rows) → IsKeyed rows
    → IsKeyed (update id test change rows)
unfolding update
update-IsKeyed id test change same [] k = tt
update-IsKeyed id test change same (row ∷ rows) k = (
  ground (arith, same row, find-update-none row.id id test change rows same k.0),
  update-IsKeyed id test change same rows k.1,
)
