-- ===== src/Composer/Status/Members.antt =====
-- What the set, its least word and its subset test say about which words a list holds.
use ai_social_brightbean_stu.Common.{
  ◌≤◌, ◌≡◌, refl, Bool, true, false, List, [], ◌∷◌, arith, ◌⊎◌, length, all, inl, inr, Bool-cases,
}
use ai_social_brightbean_stu.Composer.Status.{Status, ◌is◌, has, unique, lower, lowest, rank}

pub is→eq : (s t : Status) → (s is t) ≡ true → s ≡ t
unfolding ◌is◌
is→eq s t h = ground arith

pub is_refl : (s : Status) → (s is s) ≡ true
unfolding ◌is◌
is_refl s = ground arith

pub rank-injective : (s t : Status) → rank s ≡ rank t → s ≡ t
unfolding rank
rank-injective s t h = ground arith

pub has-unique : (xs : List Status) (s : Status) → has (unique xs) s ≡ has xs s
unfolding unique
has-unique [] s = refl
has-unique (x ∷ xs) s = ground (arith, has-unique xs s, is→eq x s)

lower_cases : (x y : Status) → (lower x y ≡ x) ⊎ (lower x y ≡ y)
unfolding lower
lower_cases x y = ground arith

lower-le : (x y : Status) → (rank (lower x y) ≤ rank x) × (rank (lower x y) ≤ rank y)
unfolding lower
lower-le x y = ground arith

pub has-lowest : (x : Status) (xs : List Status) → has (x ∷ xs) (lowest x xs) ≡ true
unfolding lowest
has-lowest x [] = ground (arith, is_refl x)
has-lowest x (y ∷ ys) = ground (arith, lower_cases x y, has-lowest (lower x y) ys)

pub lowest-le_head : (x : Status) (xs : List Status) → rank (lowest x xs) ≤ rank x
unfolding lowest
lowest-le_head x [] = omega arith
lowest-le_head x (y ∷ ys) = omega (arith, lower-le x y, lowest-le_head (lower x y) ys)

pub lowest-le :
    (x : Status) (xs : List Status) (t : Status)
    → has (x ∷ xs) t ≡ true
    → rank (lowest x xs) ≤ rank t
unfolding lowest
lowest-le x [] t h = ground (arith, is→eq x t)
lowest-le x (y ∷ ys) t h = ground (
  arith,
  lower-le x y,
  is→eq x t,
  is→eq y t,
  lowest-le_head (lower x y) ys,
  lowest-le (lower x y) ys t,
)

pub has_of_all :
    (p : Status → Bool) (xs : List Status) (s : Status)
    → all p xs ≡ true
    → has xs s ≡ true
    → p s ≡ true
has_of_all p [] s a h = ground arith
has_of_all p (x ∷ xs) s a h = ground (arith, has_of_all p xs s, is→eq x s)

pub find_failing :
    (p : Status → Bool) (xs : List Status)
    → all p xs ≡ false
    → (s : Status) × (has xs s ≡ true) × (p s ≡ false)
find_failing p [] h = ground arith
find_failing p (x ∷ xs) h = elim (Bool-cases (p x)) [
  | inl e ↦ let (s, m, f) = find_failing p xs (ground arith) in (s, ground arith, f)
  | inr e ↦ (x, ground (arith, is_refl x), e)
]

-- A set of one word holds no other.
pub same_of_single :
    (xs : List Status) (s t : Status) → length xs ≡ 1 → has xs s ≡ true → has xs t ≡ true → s ≡ t
same_of_single [] s t l hs ht = ground arith
same_of_single (x ∷ []) s t l hs ht = ground (arith, is→eq x s, is→eq x t)
same_of_single (x ∷ y ∷ xs) s t l hs ht = ground arith
