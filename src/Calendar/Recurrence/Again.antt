-- ===== src/Calendar/Recurrence/Again.antt =====
-- A second run of the task on one day makes no post that the first one made.
use mathlib.Core.Path.{subst}
use ai_social_brightbean_stu.Common.{
  ℕ, ◌+◌, ◌-◌, ◌≡◌, ◌<◌, refl, sym, ◌∙◌, Bool, true, false, ◌||◌, Option, none, some, List, [], ◌∷◌,
  ◌++◌, map, inl, inr, arith, leb, ==_refl, eq_iff, Bool-cases, All, All-map,
}
use ai_social_brightbean_stu.Composer.PlatformPost.{PlatformPost}
use ai_social_brightbean_stu.Composer.Rows.{Rows}
use ai_social_brightbean_stu.Calendar.Slots.{Zone}
use ai_social_brightbean_stu.Calendar.Queue.{earliest}
use ai_social_brightbean_stu.Calendar.Recurrence.{
  RecurrenceRule, CalendarPost, Clone, is_existing, clone_row, clone, clones, rule_dates, generate,
}

-- The post's time is the earliest of its rows', as the composer keeps it.
abbrev pub IsSynced : ℕ → Rows → Type 0
IsSynced base [] = Unit
IsSynced base (row ∷ rows) = earliest (row ∷ rows) ≡ some base

-- The posts that a run has made.
abbrev pub posts_of : List Clone → List CalendarPost
posts_of made = map (λ c. c.post) made

shift : ℕ → ℕ → Option ℕ → Option ℕ
shift start base none = none
shift start base (some t) = some (start + t - base)

earliest-clone :
    (is_blocked : PlatformPost → Bool) (post_id start base : ℕ) (rows : Rows)
    → earliest (map (clone_row is_blocked post_id start base) rows)
      ≡ shift start base (earliest rows)
unfolding earliest clone_row shift
earliest-clone is_blocked post_id start base [] = refl
earliest-clone is_blocked post_id start base (row ∷ rows) =
    ground (arith, earliest-clone is_blocked post_id start base rows)

existing-append :
    (zone : Zone) (source : CalendarPost) (posts more : List CalendarPost) (d : ℕ)
    → is_existing zone source (posts ++ more) d
      ≡ (is_existing zone source posts d || is_existing zone source more d)
unfolding is_existing
existing-append zone source [] more d = refl
existing-append zone source (p ∷ posts) more d =
    ground (arith, existing-append zone source posts more d)

existing-cons :
    (zone : Zone) (source p : CalendarPost) (posts : List CalendarPost) (d : ℕ)
    → is_existing zone source posts d ≡ true
    → is_existing zone source (p ∷ posts) d ≡ true
unfolding is_existing
existing-cons zone source p posts d h = ground arith

shift_base : (start base : ℕ) (t : Option ℕ) → t ≡ some base → shift start base t ≡ some start
unfolding shift
shift_base start base t h = ground arith

clone_at :
    (is_blocked : PlatformPost → Bool) (source : CalendarPost) (rows : Rows)
    (base post_id start : ℕ)
    → IsSynced base rows
    → (clone is_blocked source rows base post_id start).post.scheduled_at ≡ some start
unfolding clone
clone_at is_blocked source [] base post_id start h = refl
clone_at is_blocked source (row ∷ rows) base post_id start h =
    earliest-clone is_blocked post_id start base (row ∷ rows)
    ∙ shift_base start base (earliest (row ∷ rows)) h

module _ (zone : Zone) (roundtrip : (d t : ℕ) → zone.local_date (zone.combine d t).instant ≡ d)
    (source : CalendarPost) (rows : Rows) (base : ℕ) (synced : IsSynced base rows) where
  clone-existing :
      (is_blocked : PlatformPost → Bool) (post_id d t : ℕ) (posts : List CalendarPost)
      → source.id < post_id
      → is_existing zone source
          ((clone is_blocked source rows base post_id (zone.combine d t).instant).post ∷ posts)
          d
        ≡ true
  unfolding is_existing
  clone-existing is_blocked post_id d t posts h =
      rw (clone_at is_blocked source rows base post_id (zone.combine d t).instant synced) (
        unfold clone in
        ground
          (arith, roundtrip d t, h, ==_refl source.workspace, eq_iff source.caption source.caption))

  -- Whether a date is among the existing ones, or not in the future.
  skips : ℕ → List CalendarPost → ℕ → Bool
  skips today posts d = is_existing zone source posts d || leb d today

  skips_old :
      (today : ℕ) (posts more : List CalendarPost) (d : ℕ)
      → skips today posts d ≡ true
      → skips today (posts ++ more) d ≡ true
  unfolding skips
  skips_old today posts more d h = ground (arith, existing-append zone source posts more d)

  skips_new :
      (today : ℕ) (posts more : List CalendarPost) (d : ℕ)
      → is_existing zone source more d ≡ true
      → skips today (posts ++ more) d ≡ true
  unfolding skips
  skips_new today posts more d h = ground (arith, existing-append zone source posts more d)

  skips-cons :
      (today : ℕ) (posts more : List CalendarPost) (p : CalendarPost) (d : ℕ)
      → skips today (posts ++ more) d ≡ true
      → skips today (posts ++ (p ∷ more)) d ≡ true
  unfolding skips
  skips-cons today posts more p d h = ground (
    arith,
    existing-append zone source posts more d,
    existing-append zone source posts (p ∷ more) d,
    existing-cons zone source p more d,
  )

  clones_skip :
      (is_blocked : PlatformPost → Bool) (posts : List CalendarPost) (today post_id d : ℕ)
      (ds : List ℕ)
      → skips today posts d ≡ true
      → clones zone is_blocked source rows posts today base post_id (d ∷ ds)
        ≡ clones zone is_blocked source rows posts today base post_id ds
  unfolding clones skips
  clones_skip is_blocked posts today post_id d ds h = rw (h, clones) refl

  clones_go :
      (is_blocked : PlatformPost → Bool) (posts : List CalendarPost) (today post_id d : ℕ)
      (ds : List ℕ)
      → skips today posts d ≡ false
      → clones zone is_blocked source rows posts today base post_id (d ∷ ds)
        ≡ clone is_blocked source rows base post_id (zone.combine d (zone.local_time base)).instant
          ∷ clones zone is_blocked source rows posts today base (post_id + 1) ds
  unfolding clones skips
  clones_go is_blocked posts today post_id d ds h = rw (h, clones) refl

  -- The dates are skipped once the posts of these clones are there.
  abbrev Covers : List CalendarPost → ℕ → List ℕ → List Clone → Type 0
  Covers posts today ds made = All (λ d. skips today (posts ++ posts_of made) d ≡ true) ds

  covered :
      (is_blocked : PlatformPost → Bool) (posts : List CalendarPost) (today post_id : ℕ)
      (ds : List ℕ)
      → source.id < post_id
      → Covers posts today ds (clones zone is_blocked source rows posts today base post_id ds)
  covered is_blocked posts today post_id [] h = tt
  covered is_blocked posts today post_id (d ∷ ds) h = elim (Bool-cases (skips today posts d)) [
    | inl skip ↦
        subst (Covers posts today (d ∷ ds))
          (sym (clones_skip is_blocked posts today post_id d ds skip))
          (skips_old today posts _ d skip, covered is_blocked posts today post_id ds h)
    | inr go ↦
        let made =
          clone is_blocked source rows base post_id
            (zone.combine d (zone.local_time base)).instant in
        let later =
          posts_of (clones zone is_blocked source rows posts today base (post_id + 1) ds) in
        subst (Covers posts today (d ∷ ds)) (sym (clones_go is_blocked posts today post_id d ds go))
          (
            skips_new today posts _ d
                (clone-existing is_blocked post_id d (zone.local_time base) later h),
            All-map _ _ ds (λ e k. skips-cons today posts later made.post e k)
                (covered is_blocked posts today (post_id + 1) ds (omega arith)),
          )
  ]

  clones_skipped :
      (is_blocked : PlatformPost → Bool) (posts : List CalendarPost) (today post_id : ℕ)
      (ds : List ℕ)
      → All (λ d. skips today posts d ≡ true) ds
      → clones zone is_blocked source rows posts today base post_id ds ≡ []
  unfolding clones
  clones_skipped is_blocked posts today post_id [] h = refl
  clones_skipped is_blocked posts today post_id (d ∷ ds) h =
      clones_skip is_blocked posts today post_id d ds h.0
      ∙ (clones_skipped is_blocked posts today post_id ds h.1)

module _ (add_months : ℕ → ℕ → ℕ) (zone : Zone) (rule : RecurrenceRule) (source : CalendarPost)
    (rows : Rows) (is_blocked : PlatformPost → Bool) (now : ℕ) (posts : List CalendarPost)
    (post_id : ℕ) where
  generate_on :
      (base : ℕ)
      → source.scheduled_at ≡ some base
      → rule.is_active ≡ true
      → generate add_months zone is_blocked now rule source rows posts post_id
        ≡ clones zone is_blocked source rows posts
            (zone.local_date now)
            base
            post_id
            (rule_dates add_months zone rule now base)
  unfolding generate
  generate_on base at on = ground arith

  generate_off :
      rule.is_active ≡ false
      → generate add_months zone is_blocked now rule source rows posts post_id ≡ []
  unfolding generate
  generate_off off = ground arith

rule_dates_same :
    (add_months : ℕ → ℕ → ℕ) (zone : Zone) (rule : RecurrenceRule) (now later base : ℕ)
    → zone.local_date later ≡ zone.local_date now
    → rule_dates add_months zone rule later base ≡ rule_dates add_months zone rule now base
unfolding rule_dates
rule_dates_same add_months zone rule now later base same = ground arith

-- Whatever the first run of a day made, a second run on the same day makes nothing more, if the
-- zone's dates and times come back, the post's time is that of its earliest row, and new posts have
-- larger ids than it.
pub generate_again :
    (add_months : ℕ → ℕ → ℕ) (zone : Zone) (is_blocked still_blocked : PlatformPost → Bool)
    (now later : ℕ) (rule : RecurrenceRule) (source : CalendarPost) (rows : Rows)
    (posts : List CalendarPost) (post_id next_id base : ℕ)
    → ((d t : ℕ) → zone.local_date (zone.combine d t).instant ≡ d)
    → zone.local_date later ≡ zone.local_date now
    → source.scheduled_at ≡ some base
    → IsSynced base rows
    → source.id < post_id
    → generate add_months zone still_blocked later rule source rows
        (posts ++ posts_of (generate add_months zone is_blocked now rule source rows posts post_id))
        next_id
      ≡ []
generate_again add_months zone is_blocked still_blocked now later rule source rows posts post_id
      next_id base roundtrip same at synced fresh =
    let made = generate add_months zone is_blocked now rule source rows posts post_id in
    let dates = rule_dates add_months zone rule in
    elim (Bool-cases rule.is_active) [
      | inl on ↦
          generate_on add_months zone rule source rows still_blocked later (posts ++ posts_of made)
            next_id base at on
          ∙ clones_skipped zone roundtrip source rows base synced still_blocked
              (posts ++ posts_of made) (zone.local_date later) next_id (dates later base)
              (rw
                (
                  same,
                  rule_dates_same add_months zone rule now later base same,
                  generate_on add_months zone rule source rows is_blocked now posts post_id base at
                      on,
                )
                (covered zone roundtrip source rows base synced is_blocked posts
                  (zone.local_date now) post_id (dates now base) fresh))
      | inr off ↦
          generate_off add_months zone rule source rows still_blocked later (posts ++ posts_of made)
            next_id off
    ]
