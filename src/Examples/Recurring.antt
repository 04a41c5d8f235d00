-- ===== src/Examples/Recurring.antt =====
-- A post of the sixth day, that recurs every other week.
use ai_social_brightbean_stu.Common.{
  ℕ, suc, ◌+◌, ◌*◌, ◌/◌, ◌%◌, ◌≡◌, ◌≤◌, ◌<◌, ◌↔◌, refl, Bool, true, false, none, some, [], ◌∷◌,
  ◌++◌, arith, In,
}
use ai_social_brightbean_stu.Composer.Status.{scheduled, draft}
use ai_social_brightbean_stu.Composer.PlatformPost.{PlatformPost}
use ai_social_brightbean_stu.Composer.Rows.{Rows}
use ai_social_brightbean_stu.Calendar.Slots.{Zone, day}
use ai_social_brightbean_stu.Calendar.Queue.{earliest}
use ai_social_brightbean_stu.Calendar.Recurrence.{
  weekly, monthly, RecurrenceRule, CalendarPost, max_recurrences, compute_recurrence_dates,
  generate,
}
use ai_social_brightbean_stu.Calendar.Recurrence.Dates.{days_of, dates_exact}
use ai_social_brightbean_stu.Calendar.Recurrence.Drift.{IsFalling, monthly_never_recovers}
use ai_social_brightbean_stu.Calendar.Recurrence.Again.{posts_of, generate_again}
use ai_social_brightbean_stu.Examples.Data.{new_row}

-- Every month has 28 days.
abbrev add_months : ℕ → ℕ → ℕ
add_months months date = date + 28 * months

abbrev day_of : ℕ → ℕ
day_of date = date % 28

-- Times of day stay below a day.
abbrev zone : Zone
zone = record {
  local_date = λ t. t / day;
  local_time = λ t. t % day;
  combine = λ date time. record { instant = date * day + time % day; folds = false };
}

abbrev rule : RecurrenceRule
rule = record { post = 7; frequency = weekly; interval = 2; end_date = none; is_active = true }

abbrev source : CalendarPost
source = record { id = 7; workspace = 5; caption = "Friday"; scheduled_at = some (6 * day + 4) }

abbrev rows : Rows
rows =
    record (new_row 1 7 scheduled) { scheduled_at = some (6 * day + 4) }
    ∷ record (new_row 2 7 draft) { scheduled_at = some (6 * day + 9) }
    ∷ []

abbrev free : PlatformPost → Bool
free pp = false

dates_exact_example :
    In 34 (compute_recurrence_dates add_months 6 weekly 2 50)
    ↔ ((k : ℕ) × (k < max_recurrences) × (34 ≡ 6 + suc k * 14) × (34 ≤ 50))
dates_exact_example = dates_exact add_months weekly 2 14 (unfold days_of in refl) 6 50 34

monthly_never_recovers_example :
    IsFalling day_of 6 (compute_recurrence_dates add_months 6 monthly 1 100)
monthly_never_recovers_example =
    monthly_never_recovers add_months day_of (λ months d. omega arith) 6 1 100

generate_again_example :
    generate add_months zone free
      (20 * day + 5)
      rule
      source
      rows
      ([] ++ posts_of (generate add_months zone free (20 * day) rule source rows [] 8))
      30
    ≡ []
generate_again_example =
    generate_again add_months zone free free (20 * day) (20 * day + 5) rule source rows [] 8 30
      (6 * day + 4) (λ d t. omega arith) (omega arith) refl (unfold earliest in refl) (omega arith)
