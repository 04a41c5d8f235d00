-- ===== src/Api/Idempotency/Replay.antt =====
-- A request under its key again, after it was answered.
use ai_social_brightbean_stu.Common.{ℕ, ◌≡◌, Bool, none, some, List, ◌∷◌, String, arith}
use ai_social_brightbean_stu.Api.Idempotency.{
  IdempotencyRecord, Disposition, find_record, disposition_of, placeholder, claim_idempotency_slot,
  CreateRequest, effective_key, Work, Reply, Api, finish, after_claim, create, Gate, refusal,
  response,
}
use ai_social_brightbean_stu.Api.Idempotency.Slots.{Slot, settled, slot_view, slot_of}

-- The row of the key holds this answer.
abbrev HoldsAnswer : CreateRequest → ℕ → ℕ → String → List IdempotencyRecord → Type 0
HoldsAnswer r x status body rows = slot_of r.api_key x rows ≡ Slot.done r.fingerprint status body

-- A result that answers leaves the answer in the row.
abbrev Keeps : CreateRequest → ℕ → ℕ → String → Reply × Api → Type 0
Keeps r x status body c = c.0 ≡ response status body → HoldsAnswer r x status body c.1.rows

-- A row that answered keeps its answer.
row_answers :
    (x status : ℕ) (r : CreateRequest) (body : String) (row : IdempotencyRecord)
    → disposition_of r.fingerprint row ≡ Disposition.replay status body
    → slot_view (some row) ≡ Slot.done r.fingerprint status body
unfolding disposition_of slot_view settled
row_answers x status r body row h = ground arith

pub create_new :
    (now x : ℕ) (g : Gate) (r : CreateRequest) (over : Bool) (w : Work) (api : Api)
    → effective_key r ≡ some x
    → refusal g r ≡ none
    → find_record r.api_key x api.rows ≡ none
    → create now g r over w api
      ≡ finish r over w (record api { rows = placeholder now r.api_key x r.fingerprint ∷ api.rows })
unfolding create after_claim claim_idempotency_slot
create_new now x g r over w api key e f = ground arith
