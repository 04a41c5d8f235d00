-- ===== src/ClientPortal/Links/Single.antt =====
-- How often a magic link opens the portal.
use ai_social_brightbean_stu.Common.{
  one_if, ℕ, suc, ◌+◌, ◌≤◌, ◌≡◌, refl, sym, ap, ◌∙◌, Bool, true, false, not, ◌&&◌, Option, none,
  some, List, [], ◌∷◌, map, filter, arith, ==→eq, ◌==◌, Bool-cases, inl, inr, is_some,
}
use ai_social_brightbean_stu.Members.Roles.{WorkspaceMembership}
use ai_social_brightbean_stu.ClientPortal.Links.{
  MagicLinkToken, Links, find_link, is_client, is_superseded, new_link, expire_all,
  generate_magic_link, flip_consumed, is_flippable, flip_row, consume_magic_link, revoke_magic_link,
}

-- What may happen to the links: a manager issues one or revokes one, somebody opens one, or the second
-- half of such a request runs after others came between.
pub data Event : Type 0 where
  issues :
      (now sent_at : ℕ) (delivered : Bool) (id token user workspace : ℕ)
      → List WorkspaceMembership
      → Event
  opens : (now tok : ℕ) → Event
  flips : (now : ℕ) → MagicLinkToken → Event
  revokes : (now id workspace : ℕ) → Event

unfoldable pub links_after : Event → Links → Links
links_after (Event.issues now sent_at delivered id token user workspace members) links =
    (generate_magic_link now sent_at delivered id token user workspace members links).1
links_after (Event.opens now token) links = (consume_magic_link now token links).1
links_after (Event.flips now t) links = (flip_row now t links).1
links_after (Event.revokes now id workspace) links = revoke_magic_link now id workspace links

-- Whether the row of a request is that of the link `key`.
abbrev is_row : ℕ → Option MagicLinkToken → Bool
is_row key none = false
is_row key (some t) = t.id == key

-- How often an event lets somebody in by the link.
unfoldable pub entries : ℕ → Event → Links → ℕ
entries key (Event.issues _ _ _ _ _ _ _ _) links = 0
entries key (Event.opens now token) links =
    one_if (is_row key (find_link token links) && is_some (consume_magic_link now token links).0)
entries key (Event.flips now t) links = one_if (t.id == key && is_some (flip_row now t links).0)
entries key (Event.revokes _ _ _) links = 0

unfoldable pub all_entries : ℕ → List Event → Links → ℕ
all_entries key [] links = 0
all_entries key (e ∷ es) links = entries key e links + all_entries key es (links_after e links)

-- The rows of the link that were not used.
unfoldable pub unused : ℕ → Links → ℕ
unused key [] = 0
unused key (t ∷ ts) = one_if (t.id == key && not t.is_consumed) + unused key ts

-- How often the events issue the link.
unfoldable pub issued : ℕ → List Event → ℕ
issued key [] = 0
issued key (Event.issues _ _ _ id _ _ _ _ ∷ es) = one_if (id == key) + issued key es
issued key (Event.opens _ _ ∷ es) = issued key es
issued key (Event.flips _ _ ∷ es) = issued key es
issued key (Event.revokes _ _ _ ∷ es) = issued key es

unused-expire :
    (key at : ℕ) (ids : List ℕ) (links : Links)
    → unused key (expire_all at ids links) ≡ unused key links
unfolding expire_all unused
unused-expire key at ids [] = refl
unused-expire key at ids (t ∷ ts) = ground (arith, unused-expire key at ids ts)

unused-revoke :
    (key now id workspace : ℕ) (links : Links)
    → unused key (revoke_magic_link now id workspace links) ≡ unused key links
unfolding revoke_magic_link unused
unused-revoke key now id workspace [] = refl
unused-revoke key now id workspace (t ∷ ts) = ground (arith, unused-revoke key now id workspace ts)

unused-filter :
    (key : ℕ) (p : MagicLinkToken → Bool) (links : Links)
    → unused key (filter p links) ≤ unused key links
unfolding unused
unused-filter key p [] = omega arith
unused-filter key p (t ∷ ts) = ground (arith, unused-filter key p ts)

unused-flip :
    (key now id : ℕ) (links : Links) → unused key (flip_consumed now id links) ≤ unused key links
unfolding unused flip_consumed
unused-flip key now id [] = omega arith
unused-flip key now id (t ∷ ts) = ground (arith, unused-flip key now id ts)

-- A flip that finds a row uses one up.
flip_uses :
    (key now : ℕ) (links : Links)
    → is_flippable key links ≡ true
    → suc (unused key (flip_consumed now key links)) ≤ unused key links
unfolding unused flip_consumed is_flippable
flip_uses key now [] f = ground arith
flip_uses key now (u ∷ us) f = elim (Bool-cases (u.id == key && not u.is_consumed)) [
  | inl t ↦ ground (arith, unused-flip key now key us)
  | inr t ↦ ground (arith, flip_uses key now us)
]

flips_once :
    (key now : ℕ) (t : MagicLinkToken) (links : Links)
    → one_if (t.id == key && is_some (flip_row now t links).0) + unused key (flip_row now t links).1
      ≤ unused key links
unfolding flip_row
flips_once key now t links = elim (Bool-cases (is_flippable t.id links)) [
  | inl f ↦ elim (Bool-cases (t.id == key)) [
    | inl e ↦ ground (arith, used (==→eq t.id key e) f)
    | inr e ↦ ground (arith, unused-flip key now t.id links)
  ]
  | inr f ↦ ground arith
]
  where
    used :
        t.id ≡ key
        → is_flippable t.id links ≡ true
        → suc (unused key (flip_consumed now t.id links)) ≤ unused key links
    used e f = rw e (flip_uses key now links (ap (λ k. is_flippable k links) (sym e) ∙ f))

opens_once :
    (key now token : ℕ) (links : Links)
    → entries key (Event.opens now token) links + unused key (consume_magic_link now token links).1
      ≤ unused key links
unfolding entries consume_magic_link
opens_once key now token links = go (find_link token links) refl
  where
    go :
        (f : Option MagicLinkToken)
        → find_link token links ≡ f
        → entries key (Event.opens now token) links
            + unused key (consume_magic_link now token links).1
          ≤ unused key links
    go none e = ground arith
    go (some t) e = ground (arith, flips_once key now t links)

issue_adds :
    (key now sent_at : ℕ) (delivered : Bool) (id token user workspace : ℕ)
    (members : List WorkspaceMembership) (links : Links)
    → unused key (generate_magic_link now sent_at delivered id token user workspace members links).1
      ≤ one_if (id == key) + unused key links
unfolding generate_magic_link unused
issue_adds key now sent_at delivered id token user workspace members links =
    elim (Bool-cases (is_client user workspace members)) [
      | inl t ↦ sent t delivered refl
      | inr t ↦ ground arith
    ]
  where
    fresh : MagicLinkToken
    fresh = new_link now id token user workspace

    old : List ℕ
    old = map (λ t. t.id) (filter (is_superseded now user workspace) links)

    sent :
        is_client user workspace members ≡ true
        → (b : Bool) → delivered ≡ b
        → unused key
            (generate_magic_link now sent_at delivered id token user workspace members links).1
          ≤ one_if (id == key) + unused key links
    sent t true d = ground (arith, unused-expire key sent_at old (fresh ∷ links))
    sent t false d = ground (arith, unused-filter key (λ t. not (t.id == id)) (fresh ∷ links))

-- Whatever happens in whatever order, a link lets somebody in at most as often as there were unused
-- rows of it or it was issued: once, since ids are unique.
pub single_use :
    (key : ℕ) (events : List Event) (links : Links)
    → all_entries key events links ≤ unused key links + issued key events
unfolding all_entries issued entries links_after
single_use key [] links = omega arith
single_use key (Event.issues now sent_at delivered id token user workspace members ∷ es) links =
    omega (
      arith,
      single_use key es _,
      issue_adds key now sent_at delivered id token user workspace members links,
    )
single_use key (Event.opens now token ∷ es) links =
    omega (arith, single_use key es _, opens_once key now token links)
single_use key (Event.flips now t ∷ es) links =
    omega (arith, single_use key es _, flips_once key now t links)
single_use key (Event.revokes now id workspace ∷ es) links =
    omega (arith, single_use key es _, unused-revoke key now id workspace links)
