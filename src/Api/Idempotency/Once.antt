-- ===== src/Api/Idempotency/Once.antt =====
-- How many posts requests under one key make when their parts interleave.
use mathlib.Core.Path.{subst}
use ai_social_brightbean_stu.Common.{
  ℕ, suc, ◌+◌, ◌≤◌, ◌≡◌, ◌≢◌, ◌⊎◌, refl, sym, Bool, true, false, ◌&&◌, List, [], ◌∷◌, ◌++◌, arith,
  if◌then◌else◌, Bool-cases, inl, inr,
}
use ai_social_brightbean_stu.Api.Idempotency.{
  IdempotencyRecord, claim_idempotency_slot, release_idempotent_claim, CreateRequest, effective_key,
  Work, Api, released, attempt, finish,
}
use ai_social_brightbean_stu.Api.Idempotency.Slots.{slots}
use ai_social_brightbean_stu.Api.Idempotency.Claims.{
  is_key, proceeds, slots-finalize, slots-release, slots-release_other, claim-slots,
}

-- The request is made with this API key under this key.
abbrev pub owns : ℕ → ℕ → CreateRequest → Bool
owns k x r = is_key k x r.api_key (effective_key r)

unfoldable pub owned : ℕ → ℕ → List CreateRequest → ℕ
owned k x [] = 0
owned k x (r ∷ rs) = if owns k x r then suc (owned k x rs) else owned k x rs

-- The tables, and the requests that hold a claim or go on without one.
pub record Service : Type 0 where
  pub api : Api
  pub running : List CreateRequest

-- The first part of `create`, up to the claim, of a request that passed the checks.
unfoldable pub begin : ℕ → CreateRequest → Service → Service
begin now r s =
    let (d, rows) =
      claim_idempotency_slot now r.api_key (effective_key r) r.fingerprint s.api.rows in
    record {
      api = record s.api { rows = rows };
      running = if proceeds d then r ∷ s.running else s.running;
    }

-- Requests of several workers: each claims, and ends at any later time. No request breaks after its
-- post was committed, and no row is swept.
pub data Step (s : Service) (u : Service) : Type 0 where
  begins : (now : ℕ) (r : CreateRequest) → u ≡ begin now r s → Step s u
  ends :
      (before after : List CreateRequest) (r : CreateRequest) (over : Bool) (w : Work)
      → s.running ≡ before ++ (r ∷ after)
      → w ≢ Work.breaks_after
      → u ≡ record { api = (finish r over w s.api).1; running = before ++ after }
      → Step s u

pub data Reach (s : Service) : Service → Type 0 where
  here : Reach s s
  next : {t u : Service} → Reach s t → Step t u → Reach s u

-- A post made or being made under the key has the row of the key, and there is one row at most.
abbrev Counted : ℕ → ℕ → List CreateRequest → List CreateRequest → List IdempotencyRecord → Type 0
Counted k x posts running rows =
    (owned k x posts + owned k x running ≤ slots k x rows) × (slots k x rows ≤ 1)

abbrev pub IsCounted : ℕ → ℕ → Service → Type 0
IsCounted k x s = Counted k x s.api.posts s.running s.api.rows

owned-begin :
    (k x : ℕ) (b : Bool) (r : CreateRequest) (rs : List CreateRequest)
    → owned k x (if b then r ∷ rs else rs) ≡ owned k x rs + (if b && owns k x r then 1 else 0)
unfolding owned
owned-begin k x true r rs = ground arith
owned-begin k x false r rs = omega arith

begins-Counted :
    (k x now : ℕ) (r : CreateRequest) (s : Service)
    → IsCounted k x s
    → IsCounted k x (begin now r s)
unfolding begin owned
begins-Counted k x now r s h =
    let c = claim-slots k x now r.api_key r.fingerprint (effective_key r) s.api.rows in
    (
      omega (
        arith,
        owned-begin k x
            (proceeds
              (claim_idempotency_slot now r.api_key (effective_key r) r.fingerprint s.api.rows).0)
            r s.running,
        c.1,
        h.0,
      ),
      c.0 h.1,
    )

-- What an end does to the tables.
ends_rows :
    (r : CreateRequest) (over : Bool) (w : Work) (api : Api)
    → w ≢ Work.breaks_after
    → let u = (finish r over w api).1 in
      ((u.posts ≡ api.posts)
        × (u.rows ≡ release_idempotent_claim r.api_key (effective_key r) api.rows))
      ⊎ ((u.posts ≡ r ∷ api.posts) × ((k x : ℕ) → slots k x u.rows ≡ slots k x api.rows))
unfolding finish attempt released
ends_rows r over w api h = elim (Bool-cases (r.is_schedule && over)) [
  | inl t ↦ rw t (inl (refl, refl))
  | inr t ↦ rw t (after w h)
]
  where
    after :
        (v : Work)
        → v ≢ Work.breaks_after
        → let u = (attempt r v api).1 in
          ((u.posts ≡ api.posts)
            × (u.rows ≡ release_idempotent_claim r.api_key (effective_key r) api.rows))
          ⊎ ((u.posts ≡ r ∷ api.posts) × ((k x : ℕ) → slots k x u.rows ≡ slots k x api.rows))
    after Work.invalid n = inl (refl, refl)
    after Work.breaks_before n = inl (refl, refl)
    after Work.breaks_after n = absurd (n refl)
    after (Work.makes body) n =
        inr (refl, λ k x. slots-finalize k x r.api_key 201 (effective_key r) body api.rows)

owned-split :
    (k x : ℕ) (r : CreateRequest) (before after : List CreateRequest)
    → owned k x (before ++ (r ∷ after))
      ≡ owned k x (before ++ after) + (if owns k x r then 1 else 0)
unfolding owned
owned-split k x r [] after = ground arith
owned-split k x r (b ∷ before) after = ground (arith, owned-split k x r before after)

-- The end of a request that made its post, and of one that did not.
made-Counted :
    (k x : ℕ) (r : CreateRequest) (before after posts : List CreateRequest)
    (rows later : List IdempotencyRecord)
    → slots k x later ≡ slots k x rows
    → Counted k x posts (before ++ (r ∷ after)) rows
    → Counted k x (r ∷ posts) (before ++ after) later
unfolding owned
made-Counted k x r before after posts rows later e h =
    ground (arith, owned-split k x r before after)

failed-Counted :
    (k x : ℕ) (r : CreateRequest) (before after posts : List CreateRequest)
    (rows : List IdempotencyRecord)
    → Counted k x posts (before ++ (r ∷ after)) rows
    → Counted k x posts
        (before ++ after)
        (release_idempotent_claim r.api_key (effective_key r) rows)
failed-Counted k x r before after posts rows h =
    let fewer = slots-release k x r.api_key (effective_key r) rows in
    let split = owned-split k x r before after in
    elim (Bool-cases (owns k x r)) [
      | inl t ↦ (ground arith, omega (arith, fewer, h.1))
      | inr t ↦
          let same = slots-release_other k x r.api_key (effective_key r) rows t in
          (ground arith, omega (arith, fewer, h.1))
    ]

Step-IsCounted : (k x : ℕ) (s u : Service) → Step s u → IsCounted k x s → IsCounted k x u
Step-IsCounted k x s u (begins now r e) h =
    subst (IsCounted k x) (sym e) (begins-Counted k x now r s h)
Step-IsCounted k x s u (ends before after r over w e n f) h =
    subst (IsCounted k x) (sym f) (elim (ends_rows r over w s.api n) [
      | inl (p, q) ↦ rw (p, q) (failed-Counted k x r before after s.api.posts s.api.rows held)
      | inr (p, q) ↦ rw p (made-Counted k x r before after s.api.posts s.api.rows _ (q k x) held)
    ])
  where
    held : Counted k x s.api.posts (before ++ (r ∷ after)) s.api.rows
    held = subst (λ run. Counted k x s.api.posts run s.api.rows) e h

-- However requests interleave, and whatever they end with, no more than one post is made under one
-- key, if no request breaks after its post was committed, no row is swept, and each post made or
-- being made under the key had its row to begin with.
pub created_once :
    (k x : ℕ) (s u : Service) → Reach s u → IsCounted k x s → owned k x u.api.posts ≤ 1
created_once k x s u r h = let c = counted u r in omega (arith, c.0, c.1)
  where
    counted : (v : Service) → Reach s v → IsCounted k x v
    counted v here = h
    counted v (next {t = t} q st) = Step-IsCounted k x t v st (counted t q)
