-- ===== src/Calendar/Slots/Lookahead.antt =====
-- How far the search for a free slot looks ahead, and that it is far enough.
use ai_social_brightbean_stu.Common.{
  ℕ, suc, ◌+◌, ◌≡◌, ◌≢◌, max, refl, true, false, not, Option, none, some, List, [], ◌∷◌, arith,
  ◌==◌, filter, length, All, ◌++◌,
}
use ai_social_brightbean_stu.Composer.Rows.{Rows}
use ai_social_brightbean_stu.Calendar.Slots.{
  PostingSlot, SlotTime, Zone, upcoming, next_slot_datetimes, occupied_datetimes, is_taken,
  first_free, next_available_slot,
}

-- No two of the datetimes are one instant.
unfoldable pub Distinct : List SlotTime → Type 0
Distinct [] = Unit
Distinct (t ∷ ts) = All (λ u. u.instant ≢ t.instant) ts × Distinct ts

abbrev without : ℕ → List ℕ → List ℕ
without x occupied = filter (λ o. not (o == x)) occupied

-- What a search for the first free slot gives: it is free and all slots before it are taken, or there
-- is none and all are taken.
unfoldable pub FirstFree : List SlotTime → List ℕ → Option SlotTime → Type 0
FirstFree ts occupied none = All (λ u. is_taken u occupied ≡ true) ts
FirstFree ts occupied (some t) =
    (before : List SlotTime) × (later : List SlotTime) × (ts ≡ before ++ (t ∷ later))
    × All (λ u. is_taken u occupied ≡ true) before
    × (is_taken t occupied ≡ false)

bound : (n : ℕ) → max 1 (n + 1) ≡ suc n
bound n = omega arith

-- A first slot whose datetime depends on `fold` is given out whether or not a row of the channel
-- already holds its instant.
pub folding_slot_double_books :
    (zone : Zone) (slots : List PostingSlot) (now account after : ℕ) (excluded : List ℕ)
    (rows : Rows) (t : SlotTime) (ts : List SlotTime)
    → upcoming zone slots account after ≡ t ∷ ts
    → t.folds ≡ true
    → next_available_slot zone slots now account after excluded rows ≡ some t
unfolding next_available_slot next_slot_datetimes first_free is_taken
folding_slot_double_books zone slots now account after excluded rows t ts e f =
    simp (bound (length (occupied_datetimes now account excluded rows)), e, f) refl
