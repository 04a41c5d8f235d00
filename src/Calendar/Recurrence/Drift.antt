-- ===== src/Calendar/Recurrence/Drift.antt =====
-- The day of the month of a monthly rule: each date is computed from the one before it, and adding
-- months to a date that the target month lacks gives the last day of that month.
use ai_social_brightbean_stu.Common.{ℕ, zero, suc, ◌≤◌, List, [], ◌∷◌, ltb, Bool-cases, inl, inr}
use ai_social_brightbean_stu.Calendar.Recurrence.{
  monthly, max_recurrences, advance, walk, compute_recurrence_dates,
}

-- No day of the month is later than the one before it.
pub IsFalling : (ℕ → ℕ) → ℕ → List ℕ → Type 0
IsFalling day_of first [] = Unit
IsFalling day_of first (d ∷ ds) = (day_of d ≤ first) × IsFalling day_of (day_of d) ds

module _ (add_months : ℕ → ℕ → ℕ) (day_of : ℕ → ℕ)
    (clamps : (months d : ℕ) → day_of (add_months months d) ≤ day_of d) where
  walk-IsFalling :
      (interval end_date rounds current : ℕ)
      → IsFalling day_of (day_of current) (walk add_months monthly interval end_date rounds current)
  unfolding walk advance IsFalling
  walk-IsFalling interval end_date zero current = tt
  walk-IsFalling interval end_date (suc rounds) current =
      let next = add_months interval current in
      elim (Bool-cases (ltb end_date next)) [
        | inl past ↦ rw (past, walk, IsFalling) tt
        | inr more ↦
            rw (more, walk, IsFalling)
              (clamps interval current, walk-IsFalling interval end_date rounds next)
      ]

  -- Once a short month has moved a monthly series to an earlier day, it never goes back to its own:
  -- no date falls on a later day of its month than the date before it. This holds if adding months
  -- never gives a later day of the month.
  pub monthly_never_recovers :
      (base interval end_date : ℕ)
      → IsFalling day_of
          (day_of base)
          (compute_recurrence_dates add_months base monthly interval end_date)
  unfolding compute_recurrence_dates
  monthly_never_recovers base interval end_date =
      walk-IsFalling interval end_date max_recurrences base
