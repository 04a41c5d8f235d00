-- ===== src/Calendar/Recurrence/Dates.antt =====
-- Which dates a daily or weekly rule has, and when it has none left.
use ai_social_brightbean_stu.Common.{
  ℕ, zero, suc, ◌+◌, ◌*◌, ◌≡◌, ◌≤◌, ◌<◌, ◌↔◌, refl, Bool, true, false, ◌||◌, Option, none, some,
  List, [], ◌∷◌, ◌⊎◌, inl, inr, arith, ltb, leb, Bool-cases, All, In, All-In, All-map,
}
use ai_social_brightbean_stu.Composer.PlatformPost.{PlatformPost}
use ai_social_brightbean_stu.Composer.Rows.{Rows}
use ai_social_brightbean_stu.Calendar.Slots.{Zone}
use ai_social_brightbean_stu.Calendar.Recurrence.{
  Frequency, daily, weekly, monthly, other_frequency, RecurrenceRule, CalendarPost, max_recurrences,
  lookahead_days, is_existing, advance, walk, compute_recurrence_dates, last_date, clones,
  rule_dates, generate,
}

-- The days of a step of a rule that counts in days.
unfoldable pub days_of : Frequency → ℕ → Option ℕ
days_of daily interval = some interval
days_of weekly interval = some (7 * interval)
days_of _ interval = none

module _ (add_months : ℕ → ℕ → ℕ) (f : Frequency) (interval s : ℕ)
    (counted : days_of f interval ≡ some s) where
  advance_days : (current : ℕ) → advance add_months f interval current ≡ some (current + s)
  unfolding advance days_of
  advance_days current = advance_counted f counted
    where
      advance_counted :
          (g : Frequency)
          → days_of g interval ≡ some s
          → advance add_months g interval current ≡ some (current + s)
      advance_counted daily h = ground arith
      advance_counted weekly h = ground arith
      advance_counted monthly h = cc
      advance_counted other_frequency h = cc

  walk_stops :
      (end_date rounds current : ℕ)
      → ltb end_date (current + s) ≡ true
      → walk add_months f interval end_date (suc rounds) current ≡ []
  unfolding walk
  walk_stops end_date rounds current h = rw (advance_days current, walk) (rw (h, walk) refl)

  walk_goes :
      (end_date rounds current : ℕ)
      → ltb end_date (current + s) ≡ false
      → walk add_months f interval end_date (suc rounds) current
        ≡ (current + s) ∷ walk add_months f interval end_date rounds (current + s)
  unfolding walk
  walk_goes end_date rounds current h = rw (advance_days current, walk) (rw (h, walk) refl)

  walk-In :
      (end_date rounds current d : ℕ)
      → In d (walk add_months f interval end_date rounds current)
      → (k : ℕ) × (k < rounds) × (d ≡ current + suc k * s) × (d ≤ end_date)
  walk-In end_date zero current d m = absurd (unfold walk in m)
  walk-In end_date (suc rounds) current d m = elim (Bool-cases (ltb end_date (current + s))) [
    | inl past ↦ absurd (rw (walk_stops end_date rounds current past) at m)
    | inr more ↦
        later more (rw (walk_goes end_date rounds current more) at m)
          (walk-In end_date rounds (current + s) d)
  ]
    where
      later :
          ltb end_date (current + s) ≡ false
          → (d ≡ current + s) ⊎ In d (walk add_months f interval end_date rounds (current + s))
          → (In d (walk add_months f interval end_date rounds (current + s))
              → (k : ℕ) × (k < rounds) × (d ≡ current + s + suc k * s) × (d ≤ end_date))
          → (k : ℕ) × (k < suc rounds) × (d ≡ current + suc k * s) × (d ≤ end_date)
      later more (inl e) rest = (0, omega arith, grind arith, ground arith)
      later more (inr m) rest =
          let (k, few, e, low) = rest m in (suc k, omega arith, grind arith, low)

  In-walk :
      (end_date rounds current k : ℕ)
      → k < rounds
      → current + suc k * s ≤ end_date
      → In (current + suc k * s) (walk add_months f interval end_date rounds current)
  In-walk end_date zero current k h e = absurd (omega arith)
  In-walk end_date (suc rounds) current k h e =
      rw (walk_goes end_date rounds current (goes k e))
        (at k h e (λ j. In-walk end_date rounds (current + s) j))
    where
      goes : (j : ℕ) → current + suc j * s ≤ end_date → ltb end_date (current + s) ≡ false
      goes j e = grind arith

      at :
          (j : ℕ)
          → j < suc rounds
          → current + suc j * s ≤ end_date
          → ((i : ℕ)
              → i < rounds
              → current + s + suc i * s ≤ end_date
              → In
                  (current + s + suc i * s)
                  (walk add_months f interval end_date rounds (current + s)))
          → (current + suc j * s ≡ current + s)
            ⊎ In (current + suc j * s) (walk add_months f interval end_date rounds (current + s))
      at zero h e rest = inl (grind arith)
      at (suc i) h e rest =
          let same : current + s + suc i * s ≡ current + suc (suc i) * s = grind arith in
          inr (rw (← same) (rest i (omega arith) (rw same e)))

  -- The dates are those of the first 180 steps that lie within the end date, all of them.
  pub dates_exact :
      (base end_date d : ℕ)
      → In d (compute_recurrence_dates add_months base f interval end_date)
        ↔ ((k : ℕ) × (k < max_recurrences) × (d ≡ base + suc k * s) × (d ≤ end_date))
  unfolding compute_recurrence_dates
  dates_exact base end_date d = (
    walk-In end_date max_recurrences base d,
    λ (k, few, e, low). rw e (In-walk end_date max_recurrences base k few (rw (← e) low)),
  )

  -- The last date is 180 steps after the post.
  dates_bounded :
      (base end_date : ℕ)
      → All
          (λ d. d ≤ base + max_recurrences * s)
          (compute_recurrence_dates add_months base f interval end_date)
  unfolding compute_recurrence_dates
  dates_bounded base end_date =
      All-In _ _ (λ d m. below d (walk-In end_date max_recurrences base d m))
    where
      below :
          (d : ℕ)
          → (k : ℕ) × (k < max_recurrences) × (d ≡ base + suc k * s) × (d ≤ end_date)
          → d ≤ base + max_recurrences * s
      below d (k, few, e, low) =
          let steps : suc k * s ≤ max_recurrences * s = grind (arith, few) in
          omega (arith, e, steps)

clones_past :
    (zone : Zone) (is_blocked : PlatformPost → Bool) (source : CalendarPost) (rows : Rows)
    (posts : List CalendarPost) (today base post_id : ℕ) (ds : List ℕ)
    → All (λ d. d ≤ today) ds
    → clones zone is_blocked source rows posts today base post_id ds ≡ []
unfolding clones
clones_past zone is_blocked source rows posts today base post_id [] h = refl
clones_past zone is_blocked source rows posts today base post_id (d ∷ ds) h =
    let skip : (is_existing zone source posts d || leb d today) ≡ true = ground (arith, h) in
    rw (skip, clones) (clones_past zone is_blocked source rows posts today base post_id ds h.1)

-- A daily or weekly rule stops for good 180 steps after its post, with or without an end date: from
-- then on the task makes no post for it, whatever the tables hold.
pub series_runs_dry :
    (add_months : ℕ → ℕ → ℕ) (zone : Zone) (is_blocked : PlatformPost → Bool) (now : ℕ)
    (rule : RecurrenceRule) (source : CalendarPost) (rows : Rows) (posts : List CalendarPost)
    (post_id base s : ℕ)
    → source.scheduled_at ≡ some base
    → days_of rule.frequency rule.interval ≡ some s
    → zone.local_date base + max_recurrences * s ≤ zone.local_date now
    → generate add_months zone is_blocked now rule source rows posts post_id ≡ []
unfolding generate rule_dates
series_runs_dry add_months zone is_blocked now rule source rows posts post_id base s at counted
      late =
    let bound =
      dates_bounded add_months rule.frequency rule.interval s counted (zone.local_date base)
        (last_date rule.end_date (zone.local_date now + lookahead_days)) in
    let past =
      clones_past zone is_blocked source rows posts (zone.local_date now) base post_id
        (rule_dates add_months zone rule now base)
        (unfold rule_dates in All-map _ _ _ (λ d h. omega (arith, h, late)) bound) in
    elim (Bool-cases rule.is_active) [
      | inl on ↦ ground (arith, at, on, past)
      | inr off ↦ ground (arith, at, off)
    ]
