-- ===== src/Composer/PlatformPost/Graph.antt =====
-- The transition table as a graph, and what its paths cannot avoid.
use ai_social_brightbean_stu.Common.{
  ◌≡◌, ◌≢◌, refl, Bool, true, false, ◌||◌, arith, ◌⊎◌, inl, inr, Bool-cases,
}
use ai_social_brightbean_stu.Composer.Status.{
  Status, draft, pending_review, pending_client, approved, changes_requested, rejected, scheduled,
  publishing, published, failed, on_hold, ◌is◌,
}
use ai_social_brightbean_stu.Composer.Status.Members.{is→eq, is_refl}
use ai_social_brightbean_stu.Composer.PlatformPost.{can_transition}

infix 40 ◌⟶◌
abbrev pub ◌⟶◌ : Status → Status → Type 0
s ⟶ t = can_transition s t ≡ true

-- A sequence of valid transitions.
pub data Route : Status → Status → Type 0 where
  stop : {s : Status} → Route s s
  move : (s t : Status) {u : Status} → s ⟶ t → Route t u → Route s u

-- Whether the route enters `x` after its first status.
pub visits : Status → {s u : Status} → Route s u → Bool
visits x stop = false
visits x (move s t e r) = t is x || visits x r

-- The statuses from which the publisher takes a row, or in which it is out.
abbrev pub is_committed : Status → Bool
is_committed scheduled = true
is_committed publishing = true
is_committed published = true
is_committed failed = true
is_committed _ = false

-- Statuses with no edge into the publish path.
abbrev is_parked : Status → Bool
is_parked on_hold = true
is_parked changes_requested = true
is_parked rejected = true
is_parked pending_review = true
is_parked pending_client = true
is_parked _ = false

parked_move :
    (s t : Status)
    → s ⟶ t
    → is_parked s ≡ true
    → (is_parked t || (t is approved || t is draft)) ≡ true
unfolding can_transition ◌is◌
parked_move s t e p = ground arith

parked_route :
    {s u : Status} (r : Route s u)
    → is_parked s ≡ true
    → is_committed u ≡ true
    → (visits approved r || visits draft r) ≡ true
unfolding visits
parked_route {s} stop p c = ground arith
parked_route (move s t e r) p c = ground (arith, parked_move s t e p, parked_route r)

-- Nothing is published straight out of a hold: every sequence of valid transitions from `on_hold`
-- to `scheduled`, `publishing`, `published` or `failed` goes through `approved` or `draft`.
pub hold_needs_release :
    (u : Status) (r : Route on_hold u)
    → is_committed u ≡ true
    → (visits approved r || visits draft r) ≡ true
hold_needs_release u r c = parked_route r refl c

published_move : (s t : Status) → s ⟶ t → (s ≢ published) × (t ≡ published → s ≡ publishing)
unfolding can_transition ◌is◌
published_move s t e = ground arith

through_publishing :
    {s u : Status} (r : Route s u)
    → s ≢ published
    → u ≡ published
    → (s ≡ publishing) ⊎ (visits publishing r ≡ true)
unfolding visits
through_publishing stop n e = absurd (n e)
through_publishing (move s t e r) n p = elim (Bool-cases (t is published)) [
  | inl h ↦ inl ((published_move s t e).1 (is→eq t published h))
  | inr h ↦ elim (through_publishing r (λ q. ground (arith, is_refl published)) p) [
    | inl q ↦ inr ground (arith, is_refl publishing)
    | inr q ↦ inr ground arith
  ]
]

route_from_published : {s u : Status} (r : Route s u) → s ≡ published → u ≡ published
route_from_published stop p = p
route_from_published (move s t e r) p = absurd ((published_move s t e).0 p)

-- `published` is entered only from `publishing`, and no transition leaves it.
pub published_entry_and_exit :
    (s u : Status) (r : Route s u)
    → (s ≢ published → u ≡ published → (s ≡ publishing) ⊎ (visits publishing r ≡ true))
      × (s ≡ published → u ≡ published)
published_entry_and_exit s u r = (through_publishing r, route_from_published r)
