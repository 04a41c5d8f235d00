-- ===== src/Quota/Breaker/Latest.antt =====
-- The breaker keeps the latest deadline of a budget.
use ai_social_brightbean_stu.Common.{
  ℕ, ◌≡◌, ◌⊎◌, refl, ap, ◌∙◌, true, false, Option, none, some, List, [], ◌∷◌, ltb, arith,
  if◌then◌else◌, Bool-cases, inl, inr, max,
}
use ai_social_brightbean_stu.Quota.Breaker.{
  Budget, same_budget, QuotaBlock, Breaker, deadline, read_deadline, still_blocked,
  quota_blocked_until, extend, cache_set, trip_quota_block,
}

-- The later of a deadline there may be and a new one.
unfoldable pub later : Option ℕ → ℕ → Option ℕ
later none until = some until
later (some u) until = some (max u until)

pub same_refl : (b : Budget) → same_budget b b ≡ true
same_refl b = ground arith

pub deadline-extend :
    (b : Budget) (until : ℕ) (qs : List QuotaBlock)
    → deadline b (extend b until qs) ≡ later (deadline b qs) until
unfolding deadline extend later
deadline-extend b until [] = ground (arith, same_refl b)
deadline-extend b until (q ∷ qs) = ground (arith, deadline-extend b until qs)

same_sound :
    (a b c : Budget) → same_budget a b ≡ true → same_budget b c ≡ false → same_budget a c ≡ false
same_sound a b c h k = ground arith

pub deadline-extend_other :
    (b c : Budget) (until : ℕ) (qs : List QuotaBlock)
    → same_budget b c ≡ false
    → deadline c (extend b until qs) ≡ deadline c qs
unfolding deadline extend
deadline-extend_other b c until [] h = ground arith
deadline-extend_other b c until (q ∷ qs) h = elim (Bool-cases (same_budget q.budget b)) [
  | inl t ↦ own t (same_sound q.budget b c t h)
  | inr t ↦ ground (arith, deadline-extend_other b c until qs h)
]
  where
    own :
        same_budget q.budget b ≡ true
        → same_budget q.budget c ≡ false
        → deadline c (extend b until (q ∷ qs)) ≡ deadline c (q ∷ qs)
    own t e = elim (Bool-cases (ltb q.blocked_until until)) [
      | inl l ↦ rw (t, l, e) refl
      | inr l ↦ rw (t, l) refl
    ]

pub same_eq : (a b : Budget) → same_budget a b ≡ true → a ≡ b
same_eq a b h = ground arith

-- Refusals, each with its budget and its deadline.
unfoldable pub trip_all : List (Budget × ℕ) → Breaker → Breaker
trip_all [] s = s
trip_all (t ∷ ts) s = trip_all ts (trip_quota_block t.0 t.1 s)

-- The latest deadline of a budget among the refusals and the one before them.
unfoldable pub latest_of : Budget → List (Budget × ℕ) → Option ℕ → Option ℕ
latest_of b [] u = u
latest_of b (t ∷ ts) u = latest_of b ts (if same_budget t.0 b then later u t.1 else u)

tripped :
    (b : Budget) (ts : List (Budget × ℕ)) (s : Breaker)
    → deadline b (trip_all ts s).blocks ≡ latest_of b ts (deadline b s.blocks)
unfolding trip_all latest_of trip_quota_block
tripped b [] s = refl
tripped b (t ∷ ts) s =
    tripped b ts (trip_quota_block t.0 t.1 s)
    ∙ ap (latest_of b ts) (one (Bool-cases (same_budget t.0 b)))
  where
    one :
        (same_budget t.0 b ≡ true) ⊎ (same_budget t.0 b ≡ false)
        → deadline b (extend t.0 t.1 s.blocks)
          ≡ (if same_budget t.0 b then later (deadline b s.blocks) t.1 else deadline b s.blocks)
    one (inl e) = rw (e, same_eq t.0 b e) (deadline-extend b t.1 s.blocks)
    one (inr e) = rw e (deadline-extend_other t.0 b t.1 s.blocks e)

trip_all-cache :
    (ts : List (Budget × ℕ)) (s : Breaker) → s.cache ≡ none → (trip_all ts s).cache ≡ none
unfolding trip_all trip_quota_block cache_set
trip_all-cache [] s e = e
trip_all-cache (t ∷ ts) s e = trip_all-cache ts _ (ap (cache_set t.0 _) e)

uncached : (b : Budget) (s : Breaker) → s.cache ≡ none → read_deadline b s ≡ deadline b s.blocks
unfolding read_deadline
uncached b s e = ground arith

-- After whatever refusals in whatever order, a budget is blocked until the latest of its deadlines,
-- those recorded before included, and from then on not: no short throttle shortens a longer block, and
-- no other budget is blocked by it.
pub blocked_until_latest :
    (now : ℕ) (b : Budget) (ts : List (Budget × ℕ)) (blocks : List QuotaBlock)
    → (quota_blocked_until now b (trip_all ts (record { cache = none; blocks = blocks }))).0
      ≡ still_blocked now (latest_of b ts (deadline b blocks))
unfolding quota_blocked_until
blocked_until_latest now b ts blocks =
    ap (still_blocked now) (uncached b (trip_all ts _) (trip_all-cache ts _ refl) ∙ tripped b ts _)
