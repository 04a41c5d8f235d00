-- ===== src/Common/Sort.antt =====
-- The stable sort by a key, for `order_by` and `sorted`.
use Prim.Native.Nat.{ℕ, zero, suc, ◌≤◌}
use mathlib.Core.Path.{◌≡◌, refl, ap, ◌∙◌}
use mathlib.Core.Logic.{◌⊎◌, inl, inr}
use mathlib.Core.List.{List, [], ◌∷◌}
use native.Mathlib.Omega.{arith}
use ai_social_brightbean_stu.Common.Tests.{ltb, if◌then◌else◌, Bool-cases}
use ai_social_brightbean_stu.Common.Lists.{length, take, All, In, All-take}

module _ {A : Type 0} (key : A → ℕ) where
  pub insert_by : A → List A → List A
  insert_by x [] = x ∷ []
  insert_by x (y ∷ ys) =
      let rest = insert_by x ys in if ltb (key y) (key x) then y ∷ rest else x ∷ y ∷ ys

  unfoldable pub sort_by : List A → List A
  unfolding insert_by
  sort_by [] = []
  sort_by (x ∷ xs) = insert_by x (sort_by xs)

  -- Each item is no later than all that follow it.
  abbrev pub IsSortedBy : List A → Type 0
  IsSortedBy [] = Unit
  IsSortedBy (x ∷ xs) = All (λ y. key x ≤ key y) xs × IsSortedBy xs

  All-insert {κ} : (P : A → Type κ) (x : A) (xs : List A) → P x → All P xs → All P (insert_by x xs)
  unfolding insert_by
  All-insert P x [] p ps = (p, tt)
  All-insert P x (y ∷ ys) p ps = elim (Bool-cases (ltb (key y) (key x))) [
    | inl e ↦ rw e (ps.0, All-insert P x ys p ps.1)
    | inr e ↦ rw e (p, ps)
  ]

  pub All-sort {κ} : (P : A → Type κ) (xs : List A) → All P xs → All P (sort_by xs)
  unfolding sort_by
  All-sort P [] ps = tt
  All-sort P (x ∷ xs) ps = All-insert P x (sort_by xs) ps.0 (All-sort P xs ps.1)

  All-weaken : (a b : ℕ) (xs : List A) → a ≤ b → All (λ y. b ≤ key y) xs → All (λ y. a ≤ key y) xs
  All-weaken a b [] h ps = tt
  All-weaken a b (x ∷ xs) h ps = (omega (arith, ps.0), All-weaken a b xs h ps.1)

  insert-IsSortedBy : (x : A) (xs : List A) → IsSortedBy xs → IsSortedBy (insert_by x xs)
  unfolding insert_by
  insert-IsSortedBy x [] s = (tt, tt)
  insert-IsSortedBy x (y ∷ ys) s = elim (Bool-cases (ltb (key y) (key x))) [
    | inl e ↦
        rw e (All-insert (λ z. key y ≤ key z) x ys (ground arith) s.0, insert-IsSortedBy x ys s.1)
    | inr e ↦ rw e ((ground arith, All-weaken _ _ ys (ground arith) s.0), s)
  ]

  pub sort-IsSortedBy : (xs : List A) → IsSortedBy (sort_by xs)
  unfolding sort_by
  sort-IsSortedBy [] = tt
  sort-IsSortedBy (x ∷ xs) = insert-IsSortedBy x (sort_by xs) (sort-IsSortedBy xs)

  pub take-IsSortedBy : (n : ℕ) (xs : List A) → IsSortedBy xs → IsSortedBy (take n xs)
  take-IsSortedBy zero xs s = tt
  take-IsSortedBy (suc n) [] s = tt
  take-IsSortedBy (suc n) (x ∷ xs) s = (All-take _ n xs s.0, take-IsSortedBy n xs s.1)

  In-insert : (x z : A) (xs : List A) → (z ≡ x) ⊎ In z xs → In z (insert_by x xs)
  unfolding insert_by
  In-insert x z [] m = m
  In-insert x z (y ∷ ys) m = elim (Bool-cases (ltb (key y) (key x))) [
    | inl e ↦ rw e (past m (In-insert x z ys))
    | inr e ↦ rw e m
  ]
    where
      past :
          (z ≡ x) ⊎ In z (y ∷ ys)
          → ((z ≡ x) ⊎ In z ys → In z (insert_by x ys))
          → In z (y ∷ insert_by x ys)
      past (inl p) rest = inr (rest (inl p))
      past (inr (inl q)) rest = inl q
      past (inr (inr n)) rest = inr (rest (inr n))

  pub In-sort : (z : A) (xs : List A) → In z xs → In z (sort_by xs)
  unfolding sort_by
  In-sort z [] m = m
  In-sort z (x ∷ xs) (inl e) = In-insert x z (sort_by xs) (inl e)
  In-sort z (x ∷ xs) (inr m) = In-insert x z (sort_by xs) (inr (In-sort z xs m))

  All-at : (a : ℕ) (z : A) (xs : List A) → All (λ y. a ≤ key y) xs → In z xs → a ≤ key z
  All-at a z [] ps m = absurd m
  All-at a z (x ∷ xs) ps (inl e) = rw e ps.0
  All-at a z (x ∷ xs) ps (inr m) = All-at a z xs ps.1 m

  -- What the cut leaves out is no earlier than what it keeps.
  pub In-take :
      (n : ℕ) (z : A) (xs : List A)
      → IsSortedBy xs
      → In z xs
      → In z (take n xs) ⊎ All (λ y. key y ≤ key z) (take n xs)
  In-take zero z xs s m = inr tt
  In-take (suc n) z [] s m = absurd m
  In-take (suc n) z (x ∷ xs) s (inl e) = inl (inl e)
  In-take (suc n) z (x ∷ xs) s (inr m) = step (In-take n z xs s.1 m) (All-at (key x) z xs s.0 m)
    where
      step :
          In z (take n xs) ⊎ All (λ y. key y ≤ key z) (take n xs)
          → key x ≤ key z
          → In z (take (suc n) (x ∷ xs)) ⊎ All (λ y. key y ≤ key z) (take (suc n) (x ∷ xs))
      step (inl p) h = inl (inr p)
      step (inr ps) h = inr (h, ps)

  length-insert : (x : A) (xs : List A) → length (insert_by x xs) ≡ suc (length xs)
  unfolding insert_by
  length-insert x [] = refl
  length-insert x (y ∷ ys) = ground (arith, length-insert x ys)

  pub length-sort : (xs : List A) → length (sort_by xs) ≡ length xs
  unfolding sort_by
  length-sort [] = refl
  length-sort (x ∷ xs) = length-insert x (sort_by xs) ∙ ap suc (length-sort xs)
