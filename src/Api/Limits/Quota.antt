-- ===== src/Api/Limits/Quota.antt =====
-- When an account is refused, and how long the answer tells the client to wait.
use ai_social_brightbean_stu.Common.{
  ℕ, ◌+◌, ◌*◌, ◌≡◌, ◌≢◌, ◌≤◌, refl, sym, ap, ◌∙◌, Bool, true, false, ◌&&◌, Option, none, some, [],
  ◌∷◌, arith, leb, ◌==◌, if◌then◌else◌, filter, length, All,
}
use ai_social_brightbean_stu.Providers.Exceptions.{second}
use ai_social_brightbean_stu.Composer.PlatformPost.{PlatformPost}
use ai_social_brightbean_stu.Composer.Rows.{Rows}
use ai_social_brightbean_stu.Api.Limits.{
  SocialAccount, resolve_platform_limit, consumes_quota, window, recent_creations,
  count_recent_creations, sooner, oldest_update, retry_after_seconds, refused, check_platform_quota,
}

-- The row counts against the quota of the account at this instant.
abbrev pub counts : ℕ → ℕ → PlatformPost → Bool
counts now account row =
    row.social_account == account
    && (leb now (row.updated_at + window) && consumes_quota row.status)

abbrev AtLeast : ℕ → Rows → Type 0
AtLeast t rows = All (λ row. t ≤ row.updated_at) rows

weaken : (t u : ℕ) (rows : Rows) → t ≤ u → AtLeast u rows → AtLeast t rows
weaken t u [] h a = tt
weaken t u (row ∷ rows) h (p, a) = (omega (arith, p), weaken t u rows h a)

sooner_some : (t : ℕ) (o : Option ℕ) → sooner t o ≢ none
unfolding sooner
sooner_some t none e = ground arith
sooner_some t (some u) e = ground arith

none_oldest : (t : ℕ) (rows : Rows) → oldest_update rows ≡ none → AtLeast t rows
unfolding oldest_update
none_oldest t [] h = tt
none_oldest t (row ∷ rows) h = absurd (sooner_some row.updated_at (oldest_update rows) h)

sooner_least :
    (t : ℕ) (row : PlatformPost) (rows : Rows) (o : Option ℕ)
    → (o ≡ none → AtLeast t rows)
    → ((u : ℕ) → o ≡ some u → AtLeast u rows)
    → sooner row.updated_at o ≡ some t
    → AtLeast t (row ∷ rows)
unfolding sooner
sooner_least t row rows none empty least h = (ground arith, empty refl)
sooner_least t row rows (some u) empty least h =
    (ground arith, weaken t u rows (ground arith) (least u refl))

oldest_least : (t : ℕ) (rows : Rows) → oldest_update rows ≡ some t → AtLeast t rows
unfolding oldest_update
oldest_least t [] h = tt
oldest_least t (row ∷ rows) h =
    sooner_least t row rows (oldest_update rows) (none_oldest t rows) (λ u e. oldest_least u rows e)
      h

filtered_row :
    (p : PlatformPost → Bool) (t : ℕ) (row : PlatformPost) (rows : Rows) (b : Bool)
    → p row ≡ b
    → AtLeast t (if b then row ∷ filter p rows else filter p rows)
    → (AtLeast t (filter p rows) → All (λ r. p r ≡ true → t ≤ r.updated_at) rows)
    → All (λ r. p r ≡ true → t ≤ r.updated_at) (row ∷ rows)
filtered_row p t row rows true e a rest = ((λ q. a.0), rest a.1)
filtered_row p t row rows false e a rest = ((λ q. absurd (ground (arith, e, q))), rest a)

All-filter :
    (p : PlatformPost → Bool) (t : ℕ) (rows : Rows)
    → AtLeast t (filter p rows)
    → All (λ row. p row ≡ true → t ≤ row.updated_at) rows
All-filter p t [] a = tt
All-filter p t (row ∷ rows) a = filtered_row p t row rows (p row) refl a (All-filter p t rows)

-- While the oldest row of the query is in the window, the query gives the same rows.
same_recent :
    (now later t account : ℕ) (rows : Rows)
    → now ≤ later
    → later ≤ t + window
    → All (λ row. counts now account row ≡ true → t ≤ row.updated_at) rows
    → recent_creations later account rows ≡ recent_creations now account rows
unfolding recent_creations
same_recent now later t account [] h k a = refl
same_recent now later t account (row ∷ rows) h k (first, rest) =
    ground (arith, first, same_recent now later t account rows h k rest)

-- The delay in the answer ends before the oldest row leaves the window.
within_window :
    (now t : ℕ)
    → now + second ≤ t + window
    → now + retry_after_seconds now (some t) * second ≤ t + window
unfolding retry_after_seconds
within_window now t h = omega (arith, h)

refusal_parts :
    (now : ℕ) (account : SocialAccount) (rows : Rows) (limit wait : ℕ)
    → check_platform_quota now account rows ≡ refused limit wait
    → (limit ≡ resolve_platform_limit account)
      × (limit ≤ count_recent_creations now account.id rows)
      × (wait ≡ retry_after_seconds now (oldest_update (recent_creations now account.id rows)))
unfolding check_platform_quota
refusal_parts now account rows limit wait h = ground arith

refuses :
    (now : ℕ) (account : SocialAccount) (rows : Rows)
    → resolve_platform_limit account ≤ count_recent_creations now account.id rows
    → (wait : ℕ) × (check_platform_quota now account rows
        ≡ refused (resolve_platform_limit account) wait)
unfolding check_platform_quota
refuses now account rows h =
    (retry_after_seconds now (oldest_update (recent_creations now account.id rows)), ground arith)

still_reached :
    (now later : ℕ) (account : SocialAccount) (rows : Rows) (limit : ℕ)
    → limit ≡ resolve_platform_limit account
    → limit ≤ count_recent_creations now account.id rows
    → recent_creations later account.id rows ≡ recent_creations now account.id rows
    → resolve_platform_limit account ≤ count_recent_creations later account.id rows
unfolding count_recent_creations
still_reached now later account rows limit own reached same =
    omega (arith, own, reached, ap length same)

-- A client that waits as long as the answer says is refused again: where the wait is a second or more
-- the oldest row is still in the window when it ends, so that the same rows count.
pub refused_again :
    (now : ℕ) (account : SocialAccount) (rows : Rows) (limit wait t : ℕ)
    → check_platform_quota now account rows ≡ refused limit wait
    → oldest_update (recent_creations now account.id rows) ≡ some t
    → now + second ≤ t + window
    → (more : ℕ) × (check_platform_quota (now + wait * second) account rows ≡ refused limit more)
refused_again now account rows limit wait t h oldest early =
    let (own, reached, waits) = refusal_parts now account rows limit wait h in
    let delay = waits ∙ ap (retry_after_seconds now) oldest in
    let later = now + wait * second in
    let same =
      same_recent now later t account.id rows (omega arith)
        (omega (arith, within_window now t early, delay))
        (All-filter (counts now account.id) t rows (
          unfold recent_creations in
          oldest_least t (recent_creations now account.id rows) oldest)) in
    let (more, again) =
      refuses later account rows (still_reached now later account rows limit own reached same) in
    (more, again ∙ ap (λ l. refused l more) (sym own))
