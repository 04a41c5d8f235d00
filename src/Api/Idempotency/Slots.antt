-- ===== src/Api/Idempotency/Slots.antt =====
-- The idempotency table as one small machine for each pair of API key and client key.
use ai_social_brightbean_stu.Common.{
  ℕ, suc, ◌≤◌, ◌≡◌, refl, true, false, ◌&&◌, Option, none, some, List, [], ◌∷◌, map, String, filter,
  arith, ◌==◌, if◌then◌else◌, Bool-cases, inl, inr,
}
use ai_social_brightbean_stu.Api.Idempotency.{
  IdempotencyRecord, Disposition, pending_status, same_slot, find_record, disposition_of,
  claim_idempotency_slot, answered, finalize_idempotent_response, is_kept, release_idempotent_claim,
}

-- How many rows a pair has.
unfoldable pub slots : ℕ → ℕ → List IdempotencyRecord → ℕ
slots k x [] = 0
slots k x (r ∷ rs) = if same_slot k x r then suc (slots k x rs) else slots k x rs

-- What is promised of one pair: free, held by a request, or answered.
pub data Slot : Type 0 where
  free : Slot
  held : ℕ → Slot
  done : ℕ → ℕ → String → Slot

unfoldable pub settled : ℕ → ℕ → String → Slot
settled fingerprint status body =
    if status == pending_status then held fingerprint else done fingerprint status body

unfoldable pub slot_view : Option IdempotencyRecord → Slot
slot_view none = free
slot_view (some r) = settled r.request_fingerprint r.response_status r.response_body

unfoldable pub slot_of : ℕ → ℕ → List IdempotencyRecord → Slot
slot_of k x rows = slot_view (find_record k x rows)

-- A call of one of the three functions, with its key.
pub data Call : Type 0 where
  claims : ℕ → ℕ → ℕ → ℕ → Call
  finalizes : ℕ → ℕ → ℕ → String → Call
  releases : ℕ → ℕ → Call

unfoldable pub run_call : Call → List IdempotencyRecord → List IdempotencyRecord
run_call (claims now k x fingerprint) rows =
    (claim_idempotency_slot now k (some x) fingerprint rows).1
run_call (finalizes k x status body) rows = finalize_idempotent_response k (some x) status body rows
run_call (releases k x) rows = release_idempotent_claim k (some x) rows

unfoldable pub claim_slot : ℕ → Slot → Slot
claim_slot fingerprint free = held fingerprint
claim_slot fingerprint (held f) = held f
claim_slot fingerprint (done f status body) = done f status body

unfoldable pub finalize_slot : ℕ → String → Slot → Slot
finalize_slot status body free = free
finalize_slot status body (held f) = settled f status body
finalize_slot status body (done f _ _) = settled f status body

unfoldable pub release_slot : Slot → Slot
release_slot free = free
release_slot (held _) = free
release_slot (done f status body) = done f status body

-- The machine of one pair: a call under another pair does nothing.
unfoldable pub spec_call : ℕ → ℕ → Call → Slot → Slot
spec_call k x (claims now l y fingerprint) s =
    if l == k && y == x then claim_slot fingerprint s else s
spec_call k x (finalizes l y status body) s =
    if l == k && y == x then finalize_slot status body s else s
spec_call k x (releases l y) s = if l == k && y == x then release_slot s else s

pub no_rows :
    (k x : ℕ) (rows : List IdempotencyRecord) → find_record k x rows ≡ none → slots k x rows ≡ 0
unfolding find_record slots
no_rows k x [] h = refl
no_rows k x (r ∷ rs) h = ground (arith, no_rows k x rs)

not_found :
    (k x : ℕ) (rows : List IdempotencyRecord) → slots k x rows ≡ 0 → find_record k x rows ≡ none
unfolding find_record slots
not_found k x [] h = refl
not_found k x (r ∷ rs) h = ground (arith, not_found k x rs)

pub other_slot :
    (k x l y : ℕ) (r : IdempotencyRecord)
    → (l == k && y == x) ≡ false
    → same_slot l y r ≡ true
    → same_slot k x r ≡ false
other_slot k x l y r h e = ground arith

-- A finalized row is found where the row was.
pub find_answered :
    (k x status : ℕ) (body : String) (rows : List IdempotencyRecord)
    → slot_view (find_record k x (map (answered k x status body) rows))
      ≡ finalize_slot status body (slot_view (find_record k x rows))
unfolding find_record slot_view finalize_slot settled
find_answered k x status body [] = refl
find_answered k x status body (r ∷ rs) = ground (arith, find_answered k x status body rs)

find_answered_other :
    (k x l y status : ℕ) (body : String) (rows : List IdempotencyRecord)
    → (l == k && y == x) ≡ false
    → find_record k x (map (answered l y status body) rows) ≡ find_record k x rows
unfolding find_record
find_answered_other k x l y status body [] h = refl
find_answered_other k x l y status body (r ∷ rs) h =
    ground (arith, find_answered_other k x l y status body rs h, other_slot k x l y r h)

pub slots_kept_le :
    (k x l y : ℕ) (rows : List IdempotencyRecord)
    → slots k x (filter (is_kept l y) rows) ≤ slots k x rows
unfolding slots
slots_kept_le k x l y [] = omega arith
slots_kept_le k x l y (r ∷ rs) = ground (arith, slots_kept_le k x l y rs)

find_released :
    (k x : ℕ) (rows : List IdempotencyRecord)
    → slots k x rows ≤ 1
    → slot_view (find_record k x (filter (is_kept k x) rows))
      ≡ release_slot (slot_view (find_record k x rows))
unfolding find_record slot_view release_slot settled slots
find_released k x [] h = refl
find_released k x (r ∷ rs) h = elim (Bool-cases (same_slot k x r)) [
  | inl t ↦
      let rest : slots k x rs ≡ 0 = one_slot t in
      head t rest (not_found k x _ (omega (arith, slots_kept_le k x k x rs, rest)))
  | inr t ↦ ground (arith, find_released k x rs)
]
  where
    one_slot : same_slot k x r ≡ true → slots k x rs ≡ 0
    one_slot t = ground arith

    head :
        same_slot k x r ≡ true
        → slots k x rs ≡ 0
        → find_record k x (filter (is_kept k x) rs) ≡ none
        → slot_view (find_record k x (filter (is_kept k x) (r ∷ rs)))
          ≡ release_slot (slot_view (find_record k x (r ∷ rs)))
    head t z e = ground arith

find_released_other :
    (k x l y : ℕ) (rows : List IdempotencyRecord)
    → (l == k && y == x) ≡ false
    → find_record k x (filter (is_kept l y) rows) ≡ find_record k x rows
unfolding find_record
find_released_other k x l y [] h = refl
find_released_other k x l y (r ∷ rs) h =
    ground (arith, find_released_other k x l y rs h, other_slot k x l y r h)

-- What a claim answers in each state of its pair.
unfoldable pub disposition_in : ℕ → Slot → Disposition
disposition_in fingerprint free = Disposition.claimed
disposition_in fingerprint (held f) =
    if f == fingerprint then Disposition.in_flight else Disposition.reused
disposition_in fingerprint (done f status body) =
    if f == fingerprint then Disposition.replay status body else Disposition.reused

-- The answer of a claim is that of the machine.
pub claim_answer :
    (now k x fingerprint : ℕ) (rows : List IdempotencyRecord)
    → (claim_idempotency_slot now k (some x) fingerprint rows).0
      ≡ disposition_in fingerprint (slot_of k x rows)
unfolding claim_idempotency_slot slot_of slot_view settled disposition_in disposition_of
claim_answer now k x fingerprint rows = go (find_record k x rows) refl
  where
    go :
        (r : Option IdempotencyRecord)
        → find_record k x rows ≡ r
        → (claim_idempotency_slot now k (some x) fingerprint rows).0
          ≡ disposition_in fingerprint (slot_of k x rows)
    go none e = ground arith
    go (some r) e = ground arith

pub same_pair : (k x l y : ℕ) → (l == k && y == x) ≡ true → (l ≡ k) × (y ≡ x)
same_pair k x l y h = ground arith

claim_refines :
    (k x now l y fingerprint : ℕ) (rows : List IdempotencyRecord)
    → slot_of k x (run_call (Call.claims now l y fingerprint) rows)
      ≡ spec_call k x (Call.claims now l y fingerprint) (slot_of k x rows)
unfolding run_call spec_call claim_idempotency_slot slot_of slot_view settled claim_slot find_record
claim_refines k x now l y fingerprint rows = go (find_record l y rows) refl
  where
    go :
        (r : Option IdempotencyRecord)
        → find_record l y rows ≡ r
        → slot_of k x (run_call (Call.claims now l y fingerprint) rows)
          ≡ spec_call k x (Call.claims now l y fingerprint) (slot_of k x rows)
    go none e = elim (Bool-cases (l == k && y == x)) [
      | inl t ↦ ground (arith, same_pair k x l y t)
      | inr t ↦ ground arith
    ]
    go (some r) e = elim (Bool-cases (l == k && y == x)) [
      | inl t ↦ ground (arith, same_pair k x l y t)
      | inr t ↦ ground arith
    ]

-- The table keeps one machine for each pair: a call under a pair moves the machine of that pair as
-- its state says and leaves those of all other pairs alone, as long as a pair has one row at most.
pub table_refines :
    (k x : ℕ) (c : Call) (rows : List IdempotencyRecord)
    → slots k x rows ≤ 1
    → slot_of k x (run_call c rows) ≡ spec_call k x c (slot_of k x rows)
unfolding run_call spec_call slot_of finalize_idempotent_response release_idempotent_claim
table_refines k x (Call.claims now l y fingerprint) rows h =
    claim_refines k x now l y fingerprint rows
table_refines k x (Call.finalizes l y status body) rows h = elim (Bool-cases (l == k && y == x)) [
  | inl t ↦
      rw (t, (same_pair k x l y t).0, (same_pair k x l y t).1) (find_answered k x status body rows)
  | inr t ↦ rw (t, find_answered_other k x l y status body rows t) refl
]
table_refines k x (Call.releases l y) rows h = elim (Bool-cases (l == k && y == x)) [
  | inl t ↦ rw (t, (same_pair k x l y t).0, (same_pair k x l y t).1) (find_released k x rows h)
  | inr t ↦ rw (t, find_released_other k x l y rows t) refl
]
