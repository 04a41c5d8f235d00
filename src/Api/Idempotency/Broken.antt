-- ===== src/Api/Idempotency/Broken.antt =====
-- A request under its key again, after it broke.
use ai_social_brightbean_stu.Common.{
  ℕ, ◌≡◌, refl, ap, ◌∙◌, Bool, false, none, some, List, [], ◌∷◌, String, filter, arith,
}
use ai_social_brightbean_stu.Api.Idempotency.{
  IdempotencyRecord, find_record, placeholder, is_kept, release_idempotent_claim, CreateRequest,
  effective_key, Work, Reply, Api, released, attempt, finish, create, Gate, refusal,
}
use ai_social_brightbean_stu.Api.Idempotency.Replay.{create_new}

find-filter :
    (k x : ℕ) (p : IdempotencyRecord → Bool) (rows : List IdempotencyRecord)
    → find_record k x rows ≡ none
    → find_record k x (filter p rows) ≡ none
unfolding find_record
find-filter k x p [] h = refl
find-filter k x p (r ∷ rs) h = ground (arith, find-filter k x p rs)

-- A request that breaks after its post was committed frees its key.
broken_frees :
    (now x : ℕ) (r : CreateRequest) (api : Api)
    → effective_key r ≡ some x
    → find_record r.api_key x api.rows ≡ none
    → let claimed = record api { rows = placeholder now r.api_key x r.fingerprint ∷ api.rows } in
      let c = (finish r false Work.breaks_after claimed).1 in
      (c.posts ≡ r ∷ api.posts) × (find_record r.api_key x c.rows ≡ none)
unfolding finish attempt released release_idempotent_claim
broken_frees now x r api key e =
    ground (arith, find-filter r.api_key x (is_kept r.api_key x) api.rows e)

-- A request that breaks after its post was committed frees its key, so that the retry makes the post
-- a second time, if the key was free and the retry meets no failure.
pub late_failure_duplicates :
    (now later x : ℕ) (g again : Gate) (r : CreateRequest) (body : String) (api : Api)
    → effective_key r ≡ some x
    → refusal g r ≡ none
    → refusal again r ≡ none
    → find_record r.api_key x api.rows ≡ none
    → (create later again r false
        (Work.makes body)
        (create now g r false Work.breaks_after api).1).1.posts
      ≡ r ∷ r ∷ api.posts
unfolding finish attempt
late_failure_duplicates now later x g again r body api key passes passes_again free =
    ap (λ a. (create later again r false (Work.makes body) a).1.posts)
      (ap (λ (c : Reply × Api). c.1)
        (create_new now x g r false Work.breaks_after api key passes free))
    ∙ (makes_more _ (broken_frees now x r api key free).1
        ∙ ap (λ ps. r ∷ ps) (broken_frees now x r api key free).0)
  where
    finish_posts :
        (a : Api)
        → (finish r false
            (Work.makes body)
            (record a { rows = placeholder later r.api_key x r.fingerprint ∷ a.rows })).1.posts
          ≡ r ∷ a.posts
    finish_posts a = ground arith

    makes_more :
        (a : Api)
        → find_record r.api_key x a.rows ≡ none
        → (create later again r false (Work.makes body) a).1.posts ≡ r ∷ a.posts
    makes_more a e =
        ap (λ (c : Reply × Api). c.1.posts)
          (create_new later x again r false (Work.makes body) a key passes_again e)
        ∙ finish_posts a
