-- ===== src/Api/Idempotency/Claims.antt =====
-- Where the tables of requests stand on the rows of one key: what claims, answers and releases change.
use ai_social_brightbean_stu.Common.{
  ℕ, ◌+◌, ◌≤◌, ◌≡◌, refl, Bool, true, false, ◌&&◌, Option, none, some, List, [], ◌∷◌, map, String,
  filter, arith, ◌==◌, if◌then◌else◌, Bool-cases, inl, inr,
}
use ai_social_brightbean_stu.Api.Idempotency.{
  IdempotencyRecord, Disposition, find_record, disposition_of, claim_idempotency_slot, answered,
  finalize_idempotent_response, is_kept, release_idempotent_claim,
}
use ai_social_brightbean_stu.Api.Idempotency.Slots.{slots, no_rows, slots_kept_le, same_pair}

unfoldable pub is_key : ℕ → ℕ → ℕ → Option ℕ → Bool
is_key k x l none = false
is_key k x l (some y) = l == k && y == x

-- Whether `after_claim` goes on.
unfoldable pub proceeds : Disposition → Bool
proceeds Disposition.passthrough = true
proceeds Disposition.claimed = true
proceeds Disposition.in_flight = false
proceeds Disposition.reused = false
proceeds (Disposition.replay _ _) = false

slots-answered :
    (k x l y status : ℕ) (body : String) (rows : List IdempotencyRecord)
    → slots k x (map (answered l y status body) rows) ≡ slots k x rows
unfolding slots
slots-answered k x l y status body [] = refl
slots-answered k x l y status body (r ∷ rs) = ground (arith, slots-answered k x l y status body rs)

pub slots-finalize :
    (k x l status : ℕ) (key : Option ℕ) (body : String) (rows : List IdempotencyRecord)
    → slots k x (finalize_idempotent_response l key status body rows) ≡ slots k x rows
unfolding finalize_idempotent_response
slots-finalize k x l status none body rows = refl
slots-finalize k x l status (some y) body rows = slots-answered k x l y status body rows

slots_kept_other :
    (k x l y : ℕ) (rows : List IdempotencyRecord)
    → (l == k && y == x) ≡ false
    → slots k x (filter (is_kept l y) rows) ≡ slots k x rows
unfolding slots
slots_kept_other k x l y [] h = refl
slots_kept_other k x l y (r ∷ rs) h = ground (arith, slots_kept_other k x l y rs h)

pub slots-release :
    (k x l : ℕ) (key : Option ℕ) (rows : List IdempotencyRecord)
    → slots k x (release_idempotent_claim l key rows) ≤ slots k x rows
unfolding release_idempotent_claim
slots-release k x l none rows = omega arith
slots-release k x l (some y) rows = slots_kept_le k x l y rows

pub slots-release_other :
    (k x l : ℕ) (key : Option ℕ) (rows : List IdempotencyRecord)
    → is_key k x l key ≡ false
    → slots k x (release_idempotent_claim l key rows) ≡ slots k x rows
unfolding release_idempotent_claim is_key
slots-release_other k x l none rows h = refl
slots-release_other k x l (some y) rows h = slots_kept_other k x l y rows h

waits : (fingerprint : ℕ) (r : IdempotencyRecord) → proceeds (disposition_of fingerprint r) ≡ false
unfolding proceeds disposition_of
waits fingerprint r = ground arith

-- A claim goes on only with a new row of its key.
pub claim-slots :
    (k x now l fingerprint : ℕ) (key : Option ℕ) (rows : List IdempotencyRecord)
    → let c = claim_idempotency_slot now l key fingerprint rows in
      (slots k x rows ≤ 1 → slots k x c.1 ≤ 1)
      × (slots k x rows + (if proceeds c.0 && is_key k x l key then 1 else 0) ≤ slots k x c.1)
unfolding claim_idempotency_slot is_key proceeds slots
claim-slots k x now l fingerprint none rows = (λ h. h, omega arith)
claim-slots k x now l fingerprint (some y) rows = go (find_record l y rows) refl
  where
    free : find_record l y rows ≡ none → (l == k && y == x) ≡ true → slots k x rows ≡ 0
    free e t = rw (← (same_pair k x l y t).0, ← (same_pair k x l y t).1) (no_rows l y rows e)

    fresh :
        find_record l y rows ≡ none
        → (l == k && y == x) ≡ true
        → slots k x rows ≡ 0
        → let c = claim_idempotency_slot now l (some y) fingerprint rows in
          (slots k x rows ≤ 1 → slots k x c.1 ≤ 1)
          × (slots k x rows + (if proceeds c.0 && is_key k x l (some y) then 1 else 0)
              ≤ slots k x c.1)
    fresh e t z = ground arith

    busy :
        (r : IdempotencyRecord)
        → find_record l y rows ≡ some r
        → proceeds (disposition_of fingerprint r) ≡ false
        → let c = claim_idempotency_slot now l (some y) fingerprint rows in
          (slots k x rows ≤ 1 → slots k x c.1 ≤ 1)
          × (slots k x rows + (if proceeds c.0 && is_key k x l (some y) then 1 else 0)
              ≤ slots k x c.1)
    busy r e w = ground arith

    go :
        (r : Option IdempotencyRecord)
        → find_record l y rows ≡ r
        → let c = claim_idempotency_slot now l (some y) fingerprint rows in
          (slots k x rows ≤ 1 → slots k x c.1 ≤ 1)
          × (slots k x rows + (if proceeds c.0 && is_key k x l (some y) then 1 else 0)
              ≤ slots k x c.1)
    go none e = elim (Bool-cases (l == k && y == x)) [
      | inl t ↦ fresh e t (free e t)
      | inr t ↦ ground arith
    ]
    go (some r) e = busy r e (waits fingerprint r)
