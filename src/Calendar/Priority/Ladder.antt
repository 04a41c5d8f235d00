-- ===== src/Calendar/Priority/Ladder.antt =====
-- Where the entries of a queue land that climb in `prioritize` of apps/calendar/services.py.
use mathlib.Core.Path.{subst}
use ai_social_brightbean_stu.Common.{
  Bool, true, sym, ◌||◌, ℕ, zero, suc, ◌+◌, ◌≡◌, ◌≤◌, ◌<◌, refl, false, not, ◌&&◌, Option, none,
  some, List, [], ◌∷◌, arith, any, ◌==◌, Bool-cases, inl, inr, ap, ◌∙◌,
}
use ai_social_brightbean_stu.Calendar.Slots.{SlotTime, is_taken}
use ai_social_brightbean_stu.Calendar.Priority.{Mover, Place, drop, next_place, ladder}

pub slot_at : ℕ → List SlotTime → Option SlotTime
slot_at i [] = none
slot_at zero (t ∷ ts) = some t
slot_at (suc i) (t ∷ ts) = slot_at i ts

taken_at : Option SlotTime → List ℕ → Bool
taken_at none avoid = false
taken_at (some t) avoid = is_taken t avoid

-- A place that `assigned` has or whose slot is to be avoided.
unfoldable pub barred : List SlotTime → List ℕ → List ℕ → ℕ → Bool
unfolding taken_at
barred slots avoid assigned i = any (λ k. k == i) assigned || taken_at (slot_at i slots) avoid

-- The place is the first one from `i` on that is not barred.
unfoldable pub Earliest : List SlotTime → List ℕ → List ℕ → ℕ → Place → Type 0
Earliest slots avoid assigned i p =
    (i ≤ p.index)
    × (slot_at p.index slots ≡ some p.slot)
    × (barred slots avoid assigned p.index ≡ false)
    × ((k : ℕ) → i ≤ k → k < p.index → barred slots avoid assigned k ≡ true)

-- The movers land one by one, each on the earliest slot behind its old index whose index neither
-- `assigned` nor a mover before it has, and which is not to be avoided.
unfoldable pub Laddered :
    List SlotTime → List ℕ → List ℕ → List Mover → List (Mover × Place) → Type 0
Laddered slots avoid assigned [] [] = Unit
Laddered slots avoid assigned [] (_ ∷ _) = ⊥
Laddered slots avoid assigned (_ ∷ _) [] = ⊥
Laddered slots avoid assigned (mover ∷ ms) ((m, p) ∷ rest) =
    (m ≡ mover)
    × Earliest slots avoid assigned (m.index + 1) p
    × Laddered slots avoid (p.index ∷ assigned) ms rest

drop_step :
    (j : ℕ) (slots : List SlotTime) (t : SlotTime) (ts : List SlotTime)
    → drop j slots ≡ t ∷ ts
    → (slot_at j slots ≡ some t) × (drop (suc j) slots ≡ ts)
unfolding drop slot_at
drop_step zero [] t ts h = ground arith
drop_step (suc j) [] t ts h = ground arith
drop_step zero (u ∷ us) t ts h = (ground arith, ground arith)
drop_step (suc j) (u ∷ us) t ts h = drop_step j us t ts h

drop_next :
    (slots : List SlotTime) (j : ℕ) (ts : List SlotTime)
    → drop (suc j) slots ≡ ts
    → drop (j + 1) slots ≡ ts
drop_next slots j ts h = let e : j + 1 ≡ suc j = omega arith in ap (λ i. drop i slots) e ∙ h

barred_here :
    (slots : List SlotTime) (j : ℕ) (assigned avoid : List ℕ) (t : SlotTime)
    → slot_at j slots ≡ some t
    → (not (any (λ i. i == j) assigned) && not (is_taken t avoid)) ≡ false
    → barred slots avoid assigned j ≡ true
unfolding barred taken_at
barred_here slots j assigned avoid t here e = ground arith

unbarred_here :
    (slots : List SlotTime) (j : ℕ) (assigned avoid : List ℕ) (t : SlotTime)
    → slot_at j slots ≡ some t
    → (not (any (λ i. i == j) assigned) && not (is_taken t avoid)) ≡ true
    → Earliest slots avoid assigned j (record { index = j; slot = t })
unfolding barred taken_at Earliest
unbarred_here slots j assigned avoid t here e =
    (omega arith, here, ground arith, λ k low high. ground (arith, low, high))

next_barred :
    (slots : List SlotTime) (j : ℕ) (assigned avoid : List ℕ) (t : SlotTime) (p : Place)
    → slot_at j slots ≡ some t
    → (not (any (λ i. i == j) assigned) && not (is_taken t avoid)) ≡ false
    → ((k : ℕ) → j + 1 ≤ k → k < p.index → barred slots avoid assigned k ≡ true)
    → (k : ℕ) → j ≤ k
    → k < p.index
    → barred slots avoid assigned k ≡ true
next_barred slots j assigned avoid t p here e later k low high = elim (Bool-cases (k == j)) [
  | inl same ↦
      subst (λ i. barred slots avoid assigned i ≡ true) (sym (ground (arith, same)))
        (barred_here slots j assigned avoid t here e)
  | inr other ↦ later k (ground (arith, low, other)) high
]

next_place_fits :
    (slots : List SlotTime) (j : ℕ) (assigned avoid : List ℕ) (ts : List SlotTime) (p : Place)
    → drop j slots ≡ ts
    → next_place j assigned avoid ts ≡ some p
    → Earliest slots avoid assigned j p
unfolding next_place Earliest
next_place_fits slots j assigned avoid [] p d h = ground arith
next_place_fits slots j assigned avoid (t ∷ ts) p d h =
    let (here, there) = drop_step j slots t ts d in
    elim (Bool-cases (not (any (λ i. i == j) assigned) && not (is_taken t avoid))) [
      | inl e ↦
          let f : record { index = j; slot = t } ≡ p = ground (arith, e, h) in
          subst (λ q. Earliest slots avoid assigned j q) f
            (unbarred_here slots j assigned avoid t here e)
      | inr e ↦
          let (far, at, free, before) =
            next_place_fits slots (j + 1) assigned avoid ts p (drop_next slots j ts there)
              (ground (arith, e, h)) in
          (omega (arith, far), at, free, next_barred slots j assigned avoid t p here e before)
    ]

ladder_step :
    (slots : List SlotTime) (avoid assigned : List ℕ) (m : Mover) (ms : List Mover) (p : Place)
    (rest : Option (List (Mover × Place))) (places : List (Mover × Place))
    → Earliest slots avoid assigned (m.index + 1) p
    → ((ps : List (Mover × Place))
        → rest ≡ some ps
        → Laddered slots avoid (p.index ∷ assigned) ms ps)
    → elim rest [ none ↦ none | some ps ↦ some ((m, p) ∷ ps) ] ≡ some places
    → Laddered slots avoid assigned (m ∷ ms) places
unfolding Laddered
ladder_step slots avoid assigned m ms p none places f l h = ground arith
ladder_step slots avoid assigned m ms p (some ps) places f l h =
    let e : (m, p) ∷ ps ≡ places = ground (arith, h) in
    subst (λ qs. Laddered slots avoid assigned (m ∷ ms) qs) e (refl, f, l ps refl)

ladder_found :
    (slots : List SlotTime) (avoid assigned : List ℕ) (m : Mover) (ms : List Mover)
    (places : List (Mover × Place)) (found : Option Place)
    → next_place (m.index + 1) assigned avoid (drop (m.index + 1) slots) ≡ found
    → elim found [
      | none ↦ none
      | some p ↦ elim (ladder slots avoid (p.index ∷ assigned) ms) [
        | none ↦ none
        | some ps ↦ some ((m, p) ∷ ps)
      ]
    ]
      ≡ some places
    → ((p : Place) (ps : List (Mover × Place))
        → ladder slots avoid (p.index ∷ assigned) ms ≡ some ps
        → Laddered slots avoid (p.index ∷ assigned) ms ps)
    → Laddered slots avoid assigned (m ∷ ms) places
ladder_found slots avoid assigned m ms places none f h l = ground (arith, h)
ladder_found slots avoid assigned m ms places (some p) f h l =
    ladder_step slots avoid assigned m ms p (ladder slots avoid (p.index ∷ assigned) ms) places
      (next_place_fits slots (m.index + 1) assigned avoid (drop (m.index + 1) slots) p refl f) (l p)
      h

-- When the ladder succeeds, each of the movers, in their order, lands on the earliest slot behind its
-- old one whose index is neither in `assigned` nor that of a mover before it, and which is not to be
-- avoided.
pub ladder-Laddered :
    (slots : List SlotTime) (avoid assigned : List ℕ) (ms : List Mover)
    (places : List (Mover × Place))
    → ladder slots avoid assigned ms ≡ some places
    → Laddered slots avoid assigned ms places
unfolding ladder Laddered
ladder-Laddered slots avoid assigned [] places h =
    let e : [] ≡ places = ground (arith, h) in
    subst (λ qs. Laddered slots avoid assigned [] qs) e tt
ladder-Laddered slots avoid assigned (m ∷ ms) places h =
    ladder_found slots avoid assigned m ms places
      (next_place (m.index + 1) assigned avoid (drop (m.index + 1) slots)) refl h
      (λ p ps. ladder-Laddered slots avoid (p.index ∷ assigned) ms ps)
