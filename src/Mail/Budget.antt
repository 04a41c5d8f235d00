-- ===== src/Mail/Budget.antt =====
-- The budget of outbound email: the counters of apps/common/models.py, and `reserve_budget` and
-- `BudgetedEmailBackend._allow` of apps/common/mail.py. A key stands for its text, 0 for the empty
-- one; hashing an address and the start of an hour or a day are parameters, and so is whether the
-- database answers.
pub mod Caps
use ai_social_brightbean_stu.Common.{
  ℕ, ◌+◌, Bool, true, false, not, ◌&&◌, ◌||◌, Option, none, some, List, [], ◌∷◌, ltb, leb, ◌==◌,
  if◌then◌else◌, any,
}

pub data Scope : Type 0 where
  global_day recipient_hour recipient_day invite_org_day : Scope

abbrev pub scope_index : Scope → ℕ
scope_index global_day = 0
scope_index recipient_hour = 1
scope_index recipient_day = 2
scope_index invite_org_day = 3

-- `EmailSendCounter`
pub record Counter : Type 0 where
  pub scope : Scope
  pub key : ℕ
  pub period_start : ℕ
  pub count : ℕ

abbrev pub Counters : Type 0
Counters = List Counter

unfoldable pub is_counter : Scope → ℕ → ℕ → Counter → Bool
is_counter scope key period c =
    scope_index c.scope == scope_index scope && c.key == key && c.period_start == period

-- The count of a bucket, 0 where it has no row.
unfoldable pub count_of : Scope → ℕ → ℕ → Counters → ℕ
count_of scope key period [] = 0
count_of scope key period (c ∷ cs) =
    let rest = count_of scope key period cs in
    if is_counter scope key period c then c.count else rest

-- The row of a bucket with one more, created if there is none.
unfoldable pub bump : Scope → ℕ → ℕ → Counters → Counters
bump scope key period [] =
    record { scope = scope; key = key; period_start = period; count = 1 } ∷ []
bump scope key period (c ∷ cs) =
    let rest = bump scope key period cs in
    if is_counter scope key period c then record c { count = c.count + 1 } ∷ cs else c ∷ rest

-- A cap; a negative one, `none`, is unlimited.
unfoldable pub is_spent : Option ℕ → ℕ → Bool
is_spent none count = false
is_spent (some limit) count = leb limit count

-- `reserve_budget`. An empty row that a refusal leaves behind counts like no row.
unfoldable pub reserve_budget : Bool → Scope → ℕ → ℕ → Option ℕ → Bool → Counters → Bool × Counters
reserve_budget reachable scope key period limit fail_open cs =
    if reachable
    then (if is_spent limit (count_of scope key period cs)
        then (false, cs)
        else (true, bump scope key period cs))
    else (fail_open, cs)

-- `is_transactional` is the class of the header; `recipients` are the addresses in to, cc and bcc,
-- `addressed` those in to.
pub record Message : Type 0 where
  pub addressed : List ℕ
  pub recipients : List ℕ
  pub is_transactional : Bool

-- The settings that `_allow` reads.
pub record MailSettings : Type 0 where
  pub sending_enabled : Bool
  pub hourly : Option ℕ
  pub daily : Option ℕ
  pub global_limit : Option ℕ

-- The library's clock arithmetic and hash, the suppression list, and whether the database answers.
pub record Environment : Type 0 where
  pub hour_start : ℕ → ℕ
  pub day_start : ℕ → ℕ
  pub recipient_key : ℕ → ℕ
  pub suppressed : ℕ → Bool
  pub reachable : Bool

-- The loop over the addressed people; `none` is `BudgetExceededError`.
unfoldable pub reserve_recipients :
    Environment → MailSettings → ℕ → List ℕ → Counters → Option Counters
reserve_recipients e s now [] cs = some cs
reserve_recipients e s now (a ∷ rest) cs =
    let key = e.recipient_key a in
    let (ok, hour) =
      reserve_budget e.reachable recipient_hour key (e.hour_start now) s.hourly false cs in
    elim ok [
      | false ↦ none
      | true ↦
          let (fine, both) =
            reserve_budget e.reachable recipient_day key (e.day_start now) s.daily false hour in
          elim fine [ false ↦ none | true ↦ reserve_recipients e s now rest both ]
    ]

-- The last reservation; a refusal gives back what the message has taken, which are the counters `old`.
reserve_global :
    Environment → MailSettings → ℕ → Message → Counters → Option Counters → Bool × Counters
reserve_global e s now m old none = (false, old)
reserve_global e s now m old (some cs) =
    let (ok, new) =
      reserve_budget e.reachable global_day 0 (e.day_start now) s.global_limit m.is_transactional
        cs in
    if ok then (true, new) else (false, old)

is_empty : List ℕ → Bool
is_empty [] = true
is_empty (x ∷ xs) = false

-- `_allow`, with the counters after it.
unfoldable pub allow : Environment → MailSettings → ℕ → Message → Counters → Bool × Counters
unfolding is_empty reserve_global
allow e s now m cs =
    if not s.sending_enabled
    then (false, cs)
    else (if is_empty m.recipients || any e.suppressed m.recipients
        then (false, cs)
        else (if m.is_transactional
            then reserve_global e s now m cs (some cs)
            else reserve_global e s now m cs (reserve_recipients e s now m.addressed cs)))
