-- ===== src/Mail/Budget/Caps.antt =====
-- The global cap of a day, whatever messages are asked for.
use mathlib.Core.Path.{subst}
use ai_social_brightbean_stu.Common.{
  ℕ, ◌+◌, ◌⊎◌, ◌≡◌, ◌≤◌, ◌<◌, refl, ◌∙◌, Bool, true, false, ◌||◌, Option, none, some, List, [], ◌∷◌,
  arith, ◌==◌, if◌then◌else◌, any, Bool-cases, inl, inr, All,
}
use ai_social_brightbean_stu.Mail.Budget.{
  Scope, scope_index, global_day, recipient_hour, recipient_day, Counters, is_counter, count_of,
  bump, is_spent, reserve_budget, Message, MailSettings, Environment, reserve_recipients,
  reserve_global, is_empty, allow,
}

count-bump_self :
    (scope : Scope) (key period : ℕ) (cs : Counters)
    → count_of scope key period (bump scope key period cs) ≡ count_of scope key period cs + 1
unfolding count_of bump is_counter
count-bump_self scope key period [] = ground arith
count-bump_self scope key period (c ∷ cs) = ground (arith, count-bump_self scope key period cs)

-- Another scope's bucket is not touched.
count-bump_other :
    (scope other : Scope) (key k period p : ℕ) (cs : Counters)
    → (scope_index scope == scope_index other) ≡ false
    → count_of other k p (bump scope key period cs) ≡ count_of other k p cs
unfolding count_of bump is_counter
count-bump_other scope other key k period p [] h = ground arith
count-bump_other scope other key k period p (c ∷ cs) h =
    ground (arith, count-bump_other scope other key k period p cs)

reserve_other :
    (reachable open_ : Bool) (scope other : Scope) (key k period p : ℕ) (limit : Option ℕ)
    (cs : Counters)
    → (scope_index scope == scope_index other) ≡ false
    → count_of other k p (reserve_budget reachable scope key period limit open_ cs).1
      ≡ count_of other k p cs
unfolding reserve_budget
reserve_other reachable open_ scope other key k period p limit cs h =
    ground (arith, count-bump_other scope other key k period p cs h)

module _ (e : Environment) (s : MailSettings) where
  recipients_global :
      (now day : ℕ) (people : List ℕ) (cs after : Counters)
      → reserve_recipients e s now people cs ≡ some after
      → count_of global_day 0 day after ≡ count_of global_day 0 day cs
  unfolding reserve_recipients
  recipients_global now day [] cs after h = ground arith
  recipients_global now day (a ∷ rest) cs after h =
      let key = e.recipient_key a in
      let hour =
        reserve_budget e.reachable recipient_hour key (e.hour_start now) s.hourly false cs in
      let both =
        reserve_budget e.reachable recipient_day key (e.day_start now) s.daily false hour.1 in
      elim (Bool-cases hour.0) [
        | inr refused ↦ absurd (ground (arith, refused, h))
        | inl some_ ↦ elim (Bool-cases both.0) [
          | inr refused ↦ absurd (ground (arith, some_, refused, h))
          | inl more ↦
              recipients_global now day rest both.1 after (ground (arith, some_, more, h))
              ∙ reserve_other e.reachable false recipient_day global_day key 0 (e.day_start now) day
                  s.daily hour.1 refl
              ∙ reserve_other e.reachable false recipient_hour global_day key 0 (e.hour_start now)
                  day s.hourly cs refl
        ]
      ]

  -- What a message does to the global bucket of its day, where the database answers: nothing at all,
  -- or one more within the cap.
  abbrev Counted : ℕ → Counters → Bool × Counters → Type 0
  Counted now cs (ok, after) =
      ((ok ≡ false) × (after ≡ cs))
      ⊎ ((ok ≡ true)
          × (is_spent s.global_limit (count_of global_day 0 (e.day_start now) cs) ≡ false)
          × (count_of global_day 0 (e.day_start now) after
              ≡ count_of global_day 0 (e.day_start now) cs + 1))

  global-Counted :
      (now : ℕ) (m : Message) (old : Counters) (r : Option Counters)
      → e.reachable ≡ true
      → ((after : Counters)
          → r ≡ some after
          → count_of global_day 0 (e.day_start now) after
            ≡ count_of global_day 0 (e.day_start now) old)
      → Counted now old (reserve_global e s now m old r)
  unfolding reserve_global
  global-Counted now m old none up same = inl (refl, refl)
  global-Counted now m old (some cs) up same =
      let count = count_of global_day 0 (e.day_start now) in
      elim (Bool-cases (is_spent s.global_limit (count cs))) [
        | inl spent ↦
            inl (unfold reserve_budget in (ground (arith, up, spent), ground (arith, up, spent)))
        | inr left ↦ inr (
            unfold reserve_budget in
            (
              ground (arith, up, left),
              ground (arith, left, same cs refl),
              ground (
                arith,
                up,
                left,
                same cs refl,
                count-bump_self global_day 0 (e.day_start now) cs,
              ),
            ))
      ]

  allow-Counted :
      (now : ℕ) (m : Message) (cs : Counters)
      → e.reachable ≡ true
      → Counted now cs (allow e s now m cs)
  unfolding allow
  allow-Counted now m cs up = elim (Bool-cases s.sending_enabled) [
    | inr off ↦ inl (ground (arith, off), ground (arith, off))
    | inl on ↦ elim (Bool-cases (is_empty m.recipients || any e.suppressed m.recipients)) [
      | inl stop ↦ inl (ground (arith, on, stop), ground (arith, on, stop))
      | inr go ↦ elim (Bool-cases m.is_transactional) [
        | inl waited ↦
            subst (Counted now cs) (ground (arith, on, go, waited))
              (global-Counted now m cs (some cs) up (λ after h. ground (arith, h)))
        | inr notice ↦ subst (Counted now cs) (ground (arith, on, go, notice)) (
            global-Counted now m cs (reserve_recipients e s now m.addressed cs) up
              (recipients_global now (e.day_start now) m.addressed cs))
      ]
    ]
  ]

  -- How many of these messages, one after another, go out.
  pub sent : List (ℕ × Message) → Counters → ℕ
  sent [] cs = 0
  sent ((now, m) ∷ rest) cs =
      let (ok, after) = allow e s now m cs in (if ok then 1 else 0) + sent rest after

  -- Of the messages of one day, of whatever class and in whatever order, no more go out than the
  -- global cap leaves room for, if the database answers.
  pub sends_bounded :
      (day limit : ℕ) (messages : List (ℕ × Message)) (cs : Counters)
      → e.reachable ≡ true
      → s.global_limit ≡ some limit
      → All (λ (nm : ℕ × Message). e.day_start nm.0 ≡ day) messages
      → count_of global_day 0 day cs ≤ limit
      → sent messages cs + count_of global_day 0 day cs ≤ limit
  unfolding sent
  sends_bounded day limit [] cs up capped h low = omega arith
  sends_bounded day limit ((now, m) ∷ rest) cs up capped h low = elim (allow-Counted now m cs up) [
    | inl (dropped, same) ↦
        let ih = sends_bounded day limit rest cs up capped h.1 low in
        simp (dropped, same) (omega (arith, ih))
    | inr (goes, left, more) ↦
        let here : count_of global_day 0 day cs < limit =
          unfold is_spent in ground (arith, left, h.0, capped) in
        let count : count_of global_day 0 day (allow e s now m cs).1
            ≡ count_of global_day 0 day cs + 1 =
          ground (arith, more, h.0) in
        let ih =
          sends_bounded day limit rest (allow e s now m cs).1 up capped h.1
            (omega (arith, count, here)) in
        simp goes (omega (arith, ih, count))
  ]
