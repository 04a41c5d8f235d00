-- ===== src/ClientPortal/Links/Issue.antt =====
-- What issuing a magic link leaves in the table, when its mail goes out and when it does not.
use mathlib.Core.Path.{subst}
use ai_social_brightbean_stu.Common.{
  ℕ, ◌≤◌, ◌<◌, ◌≡◌, refl, sym, Bool, true, false, not, ◌&&◌, none, List, [], ◌∷◌, map, filter, any,
  arith, ◌==◌, if◌then◌else◌, Bool-cases, inl, inr, All, In,
}
use ai_social_brightbean_stu.Members.Roles.{WorkspaceMembership}
use ai_social_brightbean_stu.ClientPortal.Links.{
  MagicLinkToken, Links, is_expired, is_client, is_superseded, new_link, expire_all,
  generate_magic_link,
}

-- The link opens the portal at this instant.
abbrev pub is_live : ℕ → MagicLinkToken → Bool
is_live now t = not (is_expired now t) && not t.is_consumed

-- The id belongs to no row.
abbrev pub IsNew : ℕ → Links → Type 0
IsNew id links = All (λ t. (t.id == id) ≡ false) links

ids_of : ℕ → ℕ → ℕ → Links → List ℕ
ids_of now user workspace links = map (λ t. t.id) (filter (is_superseded now user workspace) links)

filter_new :
    (id : ℕ) (links : Links) → IsNew id links → filter (λ t. not (t.id == id)) links ≡ links
filter_new id [] h = refl
filter_new id (t ∷ ts) h = ground (arith, filter_new id ts h.1)

-- A link whose mail does not go out leaves the table as it was.
pub failed_link_leaves_table :
    (now sent_at id token user workspace : ℕ) (members : List WorkspaceMembership) (links : Links)
    → IsNew id links
    → generate_magic_link now sent_at false id token user workspace members links ≡ (none, links)
unfolding generate_magic_link
failed_link_leaves_table now sent_at id token user workspace members links h =
    ground (arith, filter_new id links h)

not_replaced :
    (now id user workspace : ℕ) (links : Links)
    → IsNew id links
    → any (λ i. i == id) (ids_of now user workspace links) ≡ false
unfolding ids_of
not_replaced now id user workspace [] h = refl
not_replaced now id user workspace (t ∷ ts) h =
    ground (arith, not_replaced now id user workspace ts h.1)

-- The list names each link that is replaced.
Named : ℕ → ℕ → ℕ → List ℕ → MagicLinkToken → Type 0
Named now user workspace ids t =
    is_superseded now user workspace t ≡ true → any (λ i. i == t.id) ids ≡ true

named_with_more :
    (now user workspace i : ℕ) (ids : List ℕ) (ts : Links)
    → All (Named now user workspace ids) ts
    → All (Named now user workspace (i ∷ ids)) ts
unfolding Named
named_with_more now user workspace i ids [] h = tt
named_with_more now user workspace i ids (t ∷ ts) h =
    (λ s. ground (arith, h.0 s), named_with_more now user workspace i ids ts h.1)

ids-superseded :
    (now user workspace : ℕ) (t : MagicLinkToken) (ts : Links)
    → is_superseded now user workspace t ≡ true
    → ids_of now user workspace (t ∷ ts) ≡ t.id ∷ ids_of now user workspace ts
unfolding ids_of
ids-superseded now user workspace t ts h = rw h refl

ids-kept :
    (now user workspace : ℕ) (t : MagicLinkToken) (ts : Links)
    → is_superseded now user workspace t ≡ false
    → ids_of now user workspace (t ∷ ts) ≡ ids_of now user workspace ts
unfolding ids_of
ids-kept now user workspace t ts h = rw h refl

replaced_named :
    (now user workspace : ℕ) (links : Links)
    → All (Named now user workspace (ids_of now user workspace links)) links
unfolding Named
replaced_named now user workspace [] = tt
replaced_named now user workspace (t ∷ ts) =
    elim (Bool-cases (is_superseded now user workspace t)) [
      | inl s ↦
          subst (λ ids. All (Named now user workspace ids) (t ∷ ts))
            (sym (ids-superseded now user workspace t ts s))
            (
              (λ z. ground arith),
              named_with_more now user workspace t.id _ ts (replaced_named now user workspace ts),
            )
      | inr s ↦
          subst (λ ids. All (Named now user workspace ids) (t ∷ ts))
            (sym (ids-kept now user workspace t ts s))
            ((λ z. ground arith), replaced_named now user workspace ts)
    ]

-- A link of the client in the workspace that still opens the portal is this one.
abbrev pub IsOnly : ℕ → ℕ → ℕ → MagicLinkToken → MagicLinkToken → Type 0
IsOnly later user workspace link t =
    t.user ≡ user → t.workspace ≡ workspace → is_live later t ≡ true → t ≡ link

-- One row after the update, for a list that names it or does not.
shut_one :
    (now sent_at later user workspace : ℕ) (link t : MagicLinkToken) (named : Bool)
    → now ≤ sent_at
    → sent_at < later
    → (is_superseded now user workspace t ≡ true → named ≡ true)
    → IsOnly later user workspace link (if named then record t { expires_at = sent_at } else t)
unfolding is_expired
shut_one now sent_at later user workspace link t true a b h p q r = ground arith
shut_one now sent_at later user workspace link t false a b h p q r = ground arith

others_shut :
    (now sent_at later user workspace : ℕ) (ids : List ℕ) (link : MagicLinkToken) (ts : Links)
    → now ≤ sent_at
    → sent_at < later
    → All (Named now user workspace ids) ts
    → All (IsOnly later user workspace link) (expire_all sent_at ids ts)
unfolding Named expire_all
others_shut now sent_at later user workspace ids link [] a b h = tt
others_shut now sent_at later user workspace ids link (t ∷ ts) a b h = (
  shut_one now sent_at later user workspace link t (any (λ i. i == t.id) ids) a b h.0,
  others_shut now sent_at later user workspace ids link ts a b h.1,
)

table_issued :
    (now sent_at id token user workspace : ℕ) (members : List WorkspaceMembership) (links : Links)
    → IsNew id links
    → is_client user workspace members ≡ true
    → (generate_magic_link now sent_at true id token user workspace members links).1
      ≡ new_link now id token user workspace
        ∷ expire_all sent_at (ids_of now user workspace links) links
unfolding generate_magic_link expire_all ids_of
table_issued now sent_at id token user workspace members links h c =
    ground (arith, not_replaced now id user workspace links h)

-- Once a link is issued and its mail is out, it is in the table as issued, and at every later instant
-- it is the only link of the client in the workspace that opens the portal, if the user is a client
-- there and the row's id is new.
pub one_live_link :
    (now sent_at later id token user workspace : ℕ) (members : List WorkspaceMembership)
    (links : Links)
    → now ≤ sent_at
    → sent_at < later
    → IsNew id links
    → is_client user workspace members ≡ true
    → let link = new_link now id token user workspace in
      let after = (generate_magic_link now sent_at true id token user workspace members links).1 in
      (In link after) × All (IsOnly later user workspace link) after
one_live_link now sent_at later id token user workspace members links a b h c =
    let link = new_link now id token user workspace in
    subst (λ after. (In link after) × All (IsOnly later user workspace link) after)
      (sym (table_issued now sent_at id token user workspace members links h c))
      (
        inl refl,
        (
          (λ p q r. refl),
          others_shut now sent_at later user workspace (ids_of now user workspace links) link links
              a b (replaced_named now user workspace links),
        ),
      )
