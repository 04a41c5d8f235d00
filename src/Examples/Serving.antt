-- ===== src/Examples/Serving.antt =====
-- A request under a key: served, repeated, and broken after its post was committed.
use ai_social_brightbean_stu.Common.{◌≡◌, ◌≤◌, refl, true, false, none, some, [], ◌∷◌, arith}
use ai_social_brightbean_stu.Api.Idempotency.{
  CreateRequest, Gate, Work, Reply, Api, refusal, create, finish, attempt, after_claim, find_record,
  claim_idempotency_slot, finalize_idempotent_response,
}
use ai_social_brightbean_stu.Api.Idempotency.Slots.{
  slots, slot_of, Call, run_call, spec_call, table_refines,
}
use ai_social_brightbean_stu.Api.Idempotency.Once.{Service, begin, owned, Reach, Step, created_once}
use ai_social_brightbean_stu.Api.Idempotency.Claims.{proceeds}
use ai_social_brightbean_stu.Api.Idempotency.Broken.{late_failure_duplicates}

abbrev request : CreateRequest
request = record {
  api_key = 3;
  is_schedule = true;
  scheduled_at = some 900;
  social_account_id = 8;
  platform_overrides = 8 ∷ [];
  idempotency_key = none;
  header_key = some 40;
  fingerprint = 77;
}

abbrev gate : Gate
gate = record {
  limit_error = none;
  create_error = none;
  publish_error = none;
  account_error = none;
}

abbrev empty : Api
empty = record { rows = []; posts = [] }

abbrev idle : Service
idle = record { api = empty; running = [] }

abbrev started : Service
started = begin 5 request idle

abbrev finished : Service
finished = record { api = (finish request false (Work.makes "made") started.api).1; running = [] }

holds : started.running ≡ request ∷ []
unfolding begin claim_idempotency_slot proceeds find_record
holds = refl

created_once_example : owned 3 40 finished.api.posts ≤ 1
unfolding owned slots
created_once_example =
    created_once 3 40 idle finished
      (Reach.next (Reach.next Reach.here (Step.begins 5 request refl))
        (Step.ends [] [] request false (Work.makes "made") holds (λ e. ground arith) refl))
      (omega arith, omega arith)

abbrev first : Reply × Api
first = create 5 gate request false (Work.makes "made") empty

passes : refusal gate request ≡ none
unfolding refusal
passes = refl

late_failure_duplicates_example :
    (create 60 gate request false
      (Work.makes "made")
      (create 5 gate request false Work.breaks_after empty).1).1.posts
    ≡ request ∷ request ∷ []
unfolding find_record
late_failure_duplicates_example =
    late_failure_duplicates 5 60 40 gate gate request "made" empty refl passes passes refl

one_row : slots 3 40 first.1.rows ≤ 1
unfolding slots create refusal claim_idempotency_slot find_record after_claim finish attempt
    finalize_idempotent_response
one_row = omega arith

table_refines_example :
    slot_of 3 40 (run_call (Call.releases 3 40) first.1.rows)
    ≡ spec_call 3 40 (Call.releases 3 40) (slot_of 3 40 first.1.rows)
table_refines_example = table_refines 3 40 (Call.releases 3 40) first.1.rows one_row
