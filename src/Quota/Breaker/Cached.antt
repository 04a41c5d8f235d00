-- ===== src/Quota/Breaker/Cached.antt =====
-- A run that reads the breaker through its cache.
use ai_social_brightbean_stu.Common.{
  ℕ, ◌≡◌, refl, sym, ap, ◌∙◌, true, false, Option, none, some, List, [], ◌∷◌, arith, Bool-cases,
  inl, inr,
}
use ai_social_brightbean_stu.Quota.Breaker.{
  Budget, same_budget, QuotaBlock, Breaker, Cache, deadline, find_cached, cache_set, read_deadline,
  still_blocked, quota_blocked_until, extend, trip_quota_block,
}
use ai_social_brightbean_stu.Quota.Breaker.Latest.{same_eq, deadline-extend_other}

-- What a run does with the breaker.
pub data Use : Type 0 where
  asks : ℕ → Budget → Use
  trips : Budget → ℕ → Use

-- The answers that a run gets.
unfoldable pub answers : List Use → Breaker → List (Option ℕ)
answers [] s = []
answers (Use.asks now b ∷ us) s =
    let (u, after) = quota_blocked_until now b s in u ∷ answers us after
answers (Use.trips b until ∷ us) s = answers us (trip_quota_block b until s)

-- What the cache says is in the table.
IsCoherent : Cache → List QuotaBlock → Type 0
IsCoherent cs blocks =
    (b : Budget) (u : Option ℕ) → find_cached b cs ≡ some u → u ≡ deadline b blocks

abbrev cached : Cache → List QuotaBlock → Breaker
cached cs blocks = record { cache = some cs; blocks = blocks }

abbrev plain : List QuotaBlock → Breaker
plain blocks = record { cache = none; blocks = blocks }

read_cached :
    (b : Budget) (cs : Cache) (blocks : List QuotaBlock)
    → IsCoherent cs blocks
    → read_deadline b (cached cs blocks) ≡ deadline b blocks
unfolding read_deadline IsCoherent
read_cached b cs blocks h = go (find_cached b cs) refl
  where
    go :
        (f : Option (Option ℕ))
        → find_cached b cs ≡ f
        → read_deadline b (cached cs blocks) ≡ deadline b blocks
    go none e = ground arith
    go (some u) e = ground (arith, h b u e)

read_plain :
    (b : Budget) (blocks : List QuotaBlock) → read_deadline b (plain blocks) ≡ deadline b blocks
unfolding read_deadline
read_plain b blocks = refl

-- An entry for one budget is added, and the table changes for that budget alone.
set-IsCoherent :
    (b : Budget) (cs : Cache) (blocks next : List QuotaBlock)
    → IsCoherent cs blocks
    → ((c : Budget) → same_budget b c ≡ false → deadline c next ≡ deadline c blocks)
    → IsCoherent ((b, deadline b next) ∷ cs) next
unfolding IsCoherent find_cached
set-IsCoherent b cs blocks next h k c u e = elim (Bool-cases (same_budget b c)) [
  | inl t ↦ first t ∙ ap (λ a. deadline a next) (same_eq b c t)
  | inr t ↦ h c u (rest t) ∙ sym (k c t)
]
  where
    first : same_budget b c ≡ true → u ≡ deadline b next
    first t = ground arith

    rest : same_budget b c ≡ false → find_cached c cs ≡ some u
    rest t = ground arith

same_answers :
    (us : List Use) (cs : Cache) (blocks : List QuotaBlock)
    → IsCoherent cs blocks
    → answers us (cached cs blocks) ≡ answers us (plain blocks)
unfolding answers quota_blocked_until trip_quota_block cache_set
same_answers [] cs blocks h = refl
same_answers (Use.asks now b ∷ us) cs blocks h =
    rw (read_cached b cs blocks h, read_plain b blocks)
      (ap (λ l. still_blocked now (deadline b blocks) ∷ l)
        (same_answers us _ blocks (set-IsCoherent b cs blocks blocks h (λ c k. refl))))
same_answers (Use.trips b until ∷ us) cs blocks h = same_answers us _ (extend b until blocks) (
    set-IsCoherent b cs blocks (extend b until blocks) h
      (λ c k. deadline-extend_other b c until blocks k))

-- A run that asks and trips in whatever order gets through its cache, empty at the start, the answers
-- that the table would give it, as long as no other run writes the table meanwhile.
pub cached_run_exact :
    (us : List Use) (blocks : List QuotaBlock)
    → answers us (record { cache = some []; blocks = blocks })
      ≡ answers us (record { cache = none; blocks = blocks })
unfolding IsCoherent find_cached
cached_run_exact us blocks = same_answers us [] blocks (λ b u e. ground arith)
