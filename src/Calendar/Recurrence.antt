-- ===== src/Calendar/Recurrence.antt =====
-- Recurring posts: `generate_recurring_posts` of apps/calendar/tasks.py, for one rule. A date is a
-- number of days; adding months to one is done by the date library and is a parameter, as is the
-- check of a channel's media and board.
pub mod Dates
pub mod Drift
pub mod Again
use ai_social_brightbean_stu.Common.{
  ℕ, zero, suc, ◌+◌, ◌-◌, ◌*◌, String, Bool, true, false, not, ◌&&◌, ◌||◌, Option, none, some, List,
  [], ◌∷◌, map, ltb, leb, ◌==◌, str_eq, if◌then◌else◌, any, min,
}
use ai_social_brightbean_stu.Composer.Status.{
  Status, draft, scheduled, publishing, published, failed,
}
use ai_social_brightbean_stu.Composer.PlatformPost.{PlatformPost, none_requested}
use ai_social_brightbean_stu.Composer.Rows.{Rows}
use ai_social_brightbean_stu.Calendar.Slots.{Zone}
use ai_social_brightbean_stu.Calendar.Queue.{earliest}

-- `other_frequency` is any text that is none of the choices.
pub data Frequency : Type 0 where
  daily weekly monthly other_frequency : Frequency

pub record RecurrenceRule : Type 0 where
  pub post : ℕ
  pub frequency : Frequency
  pub interval : ℕ
  pub end_date : Option ℕ
  pub is_active : Bool

-- The columns of `Post` that the task reads and writes.
pub record CalendarPost : Type 0 where
  pub id : ℕ
  pub workspace : ℕ
  pub caption : String
  pub scheduled_at : Option ℕ

abbrev pub lookahead_days : ℕ
lookahead_days = 90

abbrev pub max_recurrences : ℕ
max_recurrences = lookahead_days * 2

-- The date after `current`; `none` is the `break` on an unknown frequency.
unfoldable pub advance : (ℕ → ℕ → ℕ) → Frequency → ℕ → ℕ → Option ℕ
advance add_months daily interval current = some (current + interval)
advance add_months weekly interval current = some (current + 7 * interval)
advance add_months monthly interval current = some (add_months interval current)
advance add_months other_frequency interval current = none

-- The loop, with its rounds left.
unfoldable pub walk : (ℕ → ℕ → ℕ) → Frequency → ℕ → ℕ → ℕ → ℕ → List ℕ
walk add_months frequency interval end_date zero current = []
walk add_months frequency interval end_date (suc rounds) current =
    elim (advance add_months frequency interval current) [
      | none ↦ []
      | some next ↦ elim (ltb end_date next) [
        | true ↦ []
        | false ↦ next ∷ walk add_months frequency interval end_date rounds next
      ]
    ]

-- `_compute_recurrence_dates`
unfoldable pub compute_recurrence_dates : (ℕ → ℕ → ℕ) → ℕ → Frequency → ℕ → ℕ → List ℕ
compute_recurrence_dates add_months base_date frequency interval end_date =
    walk add_months frequency interval end_date max_recurrences base_date

-- The last date that is looked at.
unfoldable pub last_date : Option ℕ → ℕ → ℕ
last_date none cutoff = cutoff
last_date (some end_date) cutoff = min end_date cutoff

on_date : Zone → ℕ → Option ℕ → Bool
on_date zone date none = false
on_date zone date (some t) = zone.local_date t == date

-- Whether the date is among `existing_dates`.
unfoldable pub is_existing : Zone → CalendarPost → List CalendarPost → ℕ → Bool
unfolding on_date
is_existing zone source posts date =
    any
      (λ p.
        p.workspace == source.workspace
        && str_eq p.caption source.caption
        && not (p.id == source.id)
        && on_date zone date p.scheduled_at)
      posts

-- `_RECURRING_COMMITTED_STATUSES`
unfoldable pub is_committed : Status → Bool
is_committed scheduled = true
is_committed publishing = true
is_committed published = true
is_committed failed = true
is_committed _ = false

shifted : ℕ → ℕ → Option ℕ → Option ℕ
shifted start base none = none
shifted start base (some t) = some (start + t - base)

-- A row of the clone, before the table gives it an id and a time of update; its time keeps its
-- distance from the post's.
unfoldable pub clone_row : (PlatformPost → Bool) → ℕ → ℕ → ℕ → PlatformPost → PlatformPost
unfolding shifted
clone_row is_blocked post_id start base pp = record {
  id = 0;
  post_id = post_id;
  social_account = pp.social_account;
  status = if is_committed pp.status && not (is_blocked pp) then scheduled else draft;
  platform_post_id = none;
  publish_error = none;
  published_at = none;
  first_comment_override = pp.first_comment_override;
  first_comment_status = none_requested;
  first_comment_id = none;
  first_comment_error = none;
  first_comment_retry_count = 0;
  first_comment_posted_at = none;
  scheduled_at = shifted start base pp.scheduled_at;
  retry_count = 0;
  next_retry_at = none;
  updated_at = 0;
}

-- A post with its rows.
pub record Clone : Type 0 where
  pub post : CalendarPost
  pub rows : Rows

-- `sync_post_scheduled_at` of a post that has rows.
synced : ℕ → Rows → Option ℕ
synced start [] = some start
synced start (row ∷ rows) = earliest (row ∷ rows)

unfoldable pub clone : (PlatformPost → Bool) → CalendarPost → Rows → ℕ → ℕ → ℕ → Clone
unfolding synced
clone is_blocked source rows base post_id start =
    let cloned = map (clone_row is_blocked post_id start base) rows in
    record {
      post = record {
        id = post_id;
        workspace = source.workspace;
        caption = source.caption;
        scheduled_at = synced start cloned;
      };
      rows = cloned;
    }

-- The loop over the dates; `post_id` is the id of the next post.
unfoldable pub clones :
    Zone
    → (PlatformPost → Bool)
    → CalendarPost
    → Rows
    → List CalendarPost
    → ℕ
    → ℕ
    → ℕ
    → List ℕ
    → List Clone
clones zone is_blocked source rows posts today base post_id [] = []
clones zone is_blocked source rows posts today base post_id (d ∷ ds) =
    elim (is_existing zone source posts d || leb d today) [
      | true ↦ clones zone is_blocked source rows posts today base post_id ds
      | false ↦
          clone is_blocked source rows base post_id (zone.combine d (zone.local_time base)).instant
          ∷ clones zone is_blocked source rows posts today base (post_id + 1) ds
    ]

-- The dates of a rule for a post at `base`.
unfoldable pub rule_dates : (ℕ → ℕ → ℕ) → Zone → RecurrenceRule → ℕ → ℕ → List ℕ
rule_dates add_months zone rule now base =
    compute_recurrence_dates add_months (zone.local_date base) rule.frequency rule.interval
      (last_date rule.end_date (zone.local_date now + lookahead_days))

-- `generate_recurring_posts` for one rule.
unfoldable pub generate :
    (ℕ → ℕ → ℕ)
    → Zone
    → (PlatformPost → Bool)
    → ℕ
    → RecurrenceRule
    → CalendarPost
    → Rows
    → List CalendarPost
    → ℕ
    → List Clone
generate add_months zone is_blocked now rule source rows posts post_id = elim source.scheduled_at [
  | none ↦ []
  | some base ↦ elim rule.is_active [
    | false ↦ []
    | true ↦
        clones zone is_blocked source rows posts (zone.local_date now) base post_id
          (rule_dates add_months zone rule now base)
  ]
]
