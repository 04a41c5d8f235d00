-- ===== src/Common/Lists.antt =====
-- Lists under Boolean tests, measured by native numbers.
use Prim.Native.Nat.{ℕ, zero, suc, ◌+◌, ◌≤◌}
use mathlib.Core.Option.{Option, none, some}
use mathlib.Core.Path.{◌≡◌, refl}
use mathlib.Core.Bool.{Bool, true, false, ◌&&◌, ◌||◌}
use mathlib.Core.List.{List, [], ◌∷◌}
use native.Mathlib.Omega.{arith}
use ai_social_brightbean_stu.Common.Tests.{if◌then◌else◌, Bool-cases}
use mathlib.Core.Logic.{◌⊎◌, inl, inr}

module _ {ℓ} {A : Type ℓ} where
  abbrev pub length : List A → ℕ
  length [] = 0
  length (x ∷ xs) = suc (length xs)

  abbrev pub take : ℕ → List A → List A
  take zero xs = []
  take (suc n) [] = []
  take (suc n) (x ∷ xs) = x ∷ take n xs

  -- `[x for x in xs if p(x)]`
  abbrev pub filter : (A → Bool) → List A → List A
  filter p [] = []
  filter p (x ∷ xs) = let rest = filter p xs in if p x then x ∷ rest else rest

  abbrev pub any : (A → Bool) → List A → Bool
  any p [] = false
  any p (x ∷ xs) = p x || any p xs

  abbrev pub all : (A → Bool) → List A → Bool
  all p [] = true
  all p (x ∷ xs) = p x && all p xs

  pub length-filter : (p : A → Bool) (xs : List A) → length (filter p xs) ≤ length xs
  length-filter p [] = omega arith
  length-filter p (x ∷ xs) = ground (arith, length-filter p xs)

module _ {ℓ κ} {A : Type ℓ} where
  abbrev pub All : (A → Type κ) → List A → Type κ
  All P [] = Unit
  All P (x ∷ xs) = P x × All P xs

  pub All-take : (P : A → Type κ) (n : ℕ) (xs : List A) → All P xs → All P (take n xs)
  All-take P zero xs ps = tt
  All-take P (suc n) [] ps = tt
  All-take P (suc n) (x ∷ xs) ps = (ps.0, All-take P n xs ps.1)

  pub All-filter : (P : A → Type κ) (p : A → Bool) (xs : List A) → All P xs → All P (filter p xs)
  All-filter P p [] ps = tt
  All-filter P p (x ∷ xs) ps = elim (Bool-cases (p x)) [
    | inl t ↦ rw t (ps.0, All-filter P p xs ps.1)
    | inr t ↦ rw t (All-filter P p xs ps.1)
  ]

module _ {ℓ κ μ} {A : Type ℓ} where
  pub All-map :
      (P : A → Type κ) (Q : A → Type μ) (xs : List A) → ((x : A) → P x → Q x) → All P xs → All Q xs
  All-map P Q [] f ps = tt
  All-map P Q (x ∷ xs) f ps = (f x ps.0, All-map P Q xs f ps.1)

-- `⊥` fixes the level, so membership is for data of `Type 0`.
module _ {A : Type 0} where
  abbrev pub In : A → List A → Type 0
  In x [] = ⊥
  In x (y ∷ ys) = (x ≡ y) ⊎ In x ys

  pub In-filter : (p : A → Bool) (x : A) (xs : List A) → In x xs → p x ≡ true → In x (filter p xs)
  In-filter p x [] m h = absurd m
  In-filter p x (y ∷ ys) (inl e) h = rw (← e) (rw h (inl refl))
  In-filter p x (y ∷ ys) (inr m) h = elim (Bool-cases (p y)) [
    | inl t ↦ rw t (inr (In-filter p x ys m h))
    | inr t ↦ rw t (In-filter p x ys m h)
  ]

  pub filter-All : (p : A → Bool) (xs : List A) → All (λ x. p x ≡ true) (filter p xs)
  filter-All p [] = tt
  filter-All p (x ∷ xs) = elim (Bool-cases (p x)) [
    | inl t ↦ rw t (t, filter-All p xs)
    | inr t ↦ rw t (filter-All p xs)
  ]

  -- What a filter keeps is in the list and passes the test.
  pub filter-In : (p : A → Bool) (xs : List A) → All (λ x. In x xs × (p x ≡ true)) (filter p xs)
  filter-In p [] = tt
  filter-In p (x ∷ xs) = elim (Bool-cases (p x)) [
    | inl t ↦
        rw t ((inl refl, t), All-map _ _ (filter p xs) (λ y h. (inr h.0, h.1)) (filter-In p xs))
    | inr t ↦ rw t (All-map _ _ (filter p xs) (λ y h. (inr h.0, h.1)) (filter-In p xs))
  ]

  -- A statement about every member.
  pub All-In {κ} : (P : A → Type κ) (xs : List A) → ((x : A) → In x xs → P x) → All P xs
  All-In P [] f = tt
  All-In P (x ∷ xs) f = (f x (inl refl), All-In P xs (λ y m. f y (inr m)))

  pub In-All {κ} : (P : A → Type κ) (xs : List A) (x : A) → All P xs → In x xs → P x
  In-All P [] x ps m = absurd m
  In-All P (y ∷ ys) x ps (inl e) = rw e ps.0
  In-All P (y ∷ ys) x ps (inr m) = In-All P ys x ps.1 m

  pub length-take : (n : ℕ) (xs : List A) → length (take n xs) ≤ n
  length-take zero xs = omega arith
  length-take (suc n) [] = omega arith
  length-take (suc n) (x ∷ xs) = omega (arith, length-take n xs)

-- Each instant is `span` or more after the one before it.
abbrev pub IsSpaced : ℕ → Option ℕ → List ℕ → Type 0
IsSpaced span last [] = Unit
IsSpaced span none (t ∷ ts) = IsSpaced span (some t) ts
IsSpaced span (some last) (t ∷ ts) = (last + span ≤ t) × IsSpaced span (some t) ts
