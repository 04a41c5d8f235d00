-- ===== src/Api/Idempotency.antt =====
-- Idempotent creation of posts: `IdempotencyRecord` of apps/api/models.py, the functions of
-- apps/api/middleware.py on it, the sweep of apps/api/tasks.py and `create` of
-- apps/api/routers/posts.py. Keys, fingerprints and accounts are named by numbers, since the code only
-- compares them; what the checks before the claim and the steps after it come to is an input.
pub mod Slots
pub mod Claims
pub mod Once
pub mod Replay
pub mod Broken
use ai_social_brightbean_stu.Common.{
  ℕ, ◌+◌, ◌*◌, Bool, true, false, not, ◌&&◌, Option, none, some, List, [], ◌∷◌, map, String, filter,
  all, ltb, ◌==◌, if◌then◌else◌, or_else, is_some,
}
use ai_social_brightbean_stu.Providers.Exceptions.{second}

pub record IdempotencyRecord : Type 0 where
  pub api_key : ℕ
  pub key : ℕ
  pub request_fingerprint : ℕ
  pub response_status : ℕ
  pub response_body : String
  pub created_at : ℕ

-- `PENDING_STATUS_SENTINEL`
abbrev pub pending_status : ℕ
pending_status = 0

-- `IDEMPOTENCY_RECORD_TTL_HOURS`, as a span.
abbrev pub record_ttl : ℕ
record_ttl = 24 * 3600 * second

-- What a claim comes to; `reused` stands for the `ValueError`.
pub data Disposition : Type 0 where
  passthrough claimed in_flight reused : Disposition
  replay : ℕ → String → Disposition

abbrev pub same_slot : ℕ → ℕ → IdempotencyRecord → Bool
same_slot api_key key r = r.api_key == api_key && r.key == key

-- `get(api_key=api_key, key=key)`
unfoldable pub find_record : ℕ → ℕ → List IdempotencyRecord → Option IdempotencyRecord
find_record api_key key [] = none
find_record api_key key (r ∷ rs) =
    let rest = find_record api_key key rs in if same_slot api_key key r then some r else rest

-- The branch of a claim that lost the race.
unfoldable pub disposition_of : ℕ → IdempotencyRecord → Disposition
disposition_of fingerprint existing =
    if not (existing.request_fingerprint == fingerprint)
    then reused
    else if existing.response_status == pending_status
    then in_flight
    else replay existing.response_status existing.response_body

abbrev pub placeholder : ℕ → ℕ → ℕ → ℕ → IdempotencyRecord
placeholder now api_key key fingerprint = record {
  api_key = api_key;
  key = key;
  request_fingerprint = fingerprint;
  response_status = pending_status;
  response_body = "{}";
  created_at = now;
}

-- The unique constraint on key and API key makes the INSERT fail where there is a row.
unfoldable pub claim_idempotency_slot :
    ℕ → ℕ → Option ℕ → ℕ → List IdempotencyRecord → Disposition × List IdempotencyRecord
claim_idempotency_slot now api_key none fingerprint rows = (passthrough, rows)
claim_idempotency_slot now api_key (some key) fingerprint rows =
    elim (find_record api_key key rows) [
      | none ↦ (claimed, placeholder now api_key key fingerprint ∷ rows)
      | some existing ↦ (disposition_of fingerprint existing, rows)
    ]

abbrev pub answered : ℕ → ℕ → ℕ → String → IdempotencyRecord → IdempotencyRecord
answered api_key key status body r =
    if same_slot api_key key r
    then record r { response_status = status; response_body = body }
    else r

unfoldable pub finalize_idempotent_response :
    ℕ → Option ℕ → ℕ → String → List IdempotencyRecord → List IdempotencyRecord
finalize_idempotent_response api_key none status body rows = rows
finalize_idempotent_response api_key (some key) status body rows =
    map (answered api_key key status body) rows

abbrev pub is_kept : ℕ → ℕ → IdempotencyRecord → Bool
is_kept api_key key r = not (same_slot api_key key r && r.response_status == pending_status)

unfoldable pub release_idempotent_claim :
    ℕ → Option ℕ → List IdempotencyRecord → List IdempotencyRecord
release_idempotent_claim api_key none rows = rows
release_idempotent_claim api_key (some key) rows = filter (is_kept api_key key) rows

-- Python subtracts from the present: a row is old if its time plus the span has passed.
unfoldable pub sweep_stale_idempotency_records : ℕ → List IdempotencyRecord → List IdempotencyRecord
sweep_stale_idempotency_records now rows =
    filter (λ r. not (ltb (r.created_at + record_ttl) now)) rows

pub record CreateRequest : Type 0 where
  pub api_key : ℕ
  pub is_schedule : Bool
  pub scheduled_at : Option ℕ
  pub social_account_id : ℕ
  pub platform_overrides : List ℕ
  pub idempotency_key : Option ℕ
  pub header_key : Option ℕ
  pub fingerprint : ℕ

-- What the limits, the permissions of the key and the accounts say of the request: each is the code
-- of the `HttpError`, if any.
pub record Gate : Type 0 where
  pub limit_error : Option ℕ
  pub create_error : Option ℕ
  pub publish_error : Option ℕ
  pub account_error : Option ℕ

abbrev when : Bool → Option ℕ → Option ℕ
when test code = if test then code else none

-- The checks before the claim, in their order.
unfoldable pub refusal : Gate → CreateRequest → Option ℕ
refusal g r = or_else g.limit_error (
    or_else g.create_error (
      or_else (when r.is_schedule g.publish_error) (
        or_else g.account_error (
          or_else (when (r.is_schedule && not (is_some r.scheduled_at)) (some 422))
            (when (not (all (λ a. a == r.social_account_id) r.platform_overrides)) (some 422))))))

abbrev pub effective_key : CreateRequest → Option ℕ
effective_key r = or_else r.idempotency_key r.header_key

-- What the steps from `create_post` on come to: its `ValueError`, another exception before or after
-- the post was committed, or the response's body.
pub data Work : Type 0 where
  invalid breaks_before breaks_after : Work
  makes : String → Work

pub data Reply : Type 0 where
  response : ℕ → String → Reply
  http_error : ℕ → Reply

-- The idempotency table, and the requests whose posts were committed.
pub record Api : Type 0 where
  pub rows : List IdempotencyRecord
  pub posts : List CreateRequest

unfoldable pub released : CreateRequest → Api → Api
released r api = record api { rows = release_idempotent_claim r.api_key (effective_key r) api.rows }

-- `create` from `create_post` on, under its `try`.
unfoldable pub attempt : CreateRequest → Work → Api → Reply × Api
unfolding released
attempt r invalid api = (http_error 422, released r api)
attempt r breaks_before api = (http_error 500, released r api)
attempt r breaks_after api = (http_error 500, released r (record api { posts = r ∷ api.posts }))
attempt r (makes body) api = (
  response 201 body,
  record {
    rows = finalize_idempotent_response r.api_key (effective_key r) 201 body api.rows;
    posts = r ∷ api.posts;
  },
)

-- `create` after a claim; `over` is the answer of the platform quota, asked for a scheduled post.
unfoldable pub finish : CreateRequest → Bool → Work → Api → Reply × Api
unfolding released
finish r over w api =
    if r.is_schedule && over then (http_error 429, released r api) else attempt r w api

-- `create` once the claim is made.
unfoldable pub after_claim : CreateRequest → Bool → Work → Disposition → Api → Reply × Api
after_claim r over w passthrough api = finish r over w api
after_claim r over w claimed api = finish r over w api
after_claim r over w in_flight api = (http_error 409, api)
after_claim r over w reused api = (http_error 422, api)
after_claim r over w (replay status body) api = (response status body, api)

unfoldable pub create : ℕ → Gate → CreateRequest → Bool → Work → Api → Reply × Api
create now g r over w api = elim (refusal g r) [
  | some code ↦ (http_error code, api)
  | none ↦
      let (d, rows) =
        claim_idempotency_slot now r.api_key (effective_key r) r.fingerprint api.rows in
      after_claim r over w d (record api { rows = rows })
]
