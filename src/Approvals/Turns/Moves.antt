-- ===== src/Approvals/Turns/Moves.antt =====
-- What one turn does to the table.
use ai_social_brightbean_stu.Common.{
  ℕ, ◌≡◌, refl, ◌∙◌, Bool, true, false, ◌||◌, Option, none, some, arith, ◌==◌, ==_refl, ==→eq,
  if◌then◌else◌, ◌⊎◌, inl, inr, Bool-cases,
}
use ai_social_brightbean_stu.Composer.Status.{
  Status, pending_review, pending_client, approved, on_hold, published, scheduled, ◌is◌,
}
use ai_social_brightbean_stu.Composer.PlatformPost.{
  PlatformPost, transition_to, can_transition, valid_transitions, settle_transition,
}
use ai_social_brightbean_stu.Composer.Rows.{Rows, find, update}
use ai_social_brightbean_stu.Composer.Rows.Laws.{find-update_self, find-update_ne}
use ai_social_brightbean_stu.Approvals.Turns.{
  save_transition, save_moved, transition_or_skip, moved_turn, move_one, client_turn, approved_turn,
  approve_one,
}
use ai_social_brightbean_stu.Approvals.Turns.Loop.{Acts}

find-update :
    (id key : ℕ) (change : PlatformPost → PlatformPost) (rows : Rows) (row : PlatformPost)
    → ((r : PlatformPost) → (change r).id ≡ r.id)
    → find id rows ≡ some row
    → find key (update id (λ _. true) change rows)
      ≡ (if id == key then some (change row) else find key rows)
find-update id key change rows row same found = ground (
  arith,
  find-update_self id (λ _. true) change (λ r e. same r ∙ e) rows,
  find-update_ne id (λ _. true) change (λ r e. same r ∙ e) key rows,
)

unmoved :
    (pp : PlatformPost) (rows : Rows) (key : ℕ)
    → find pp.id rows ≡ some pp
    → find key rows ≡ (if pp.id == key then some pp else find key rows)
unmoved pp rows key found = ground (arith, ==→eq pp.id key)

saved_copy : ℕ → PlatformPost → Option PlatformPost → PlatformPost
saved_copy now pp none = pp
saved_copy now pp (some moved) = save_transition now moved pp

-- What `_transition_or_skip` makes of a row.
pub moved_row : ℕ → Status → PlatformPost → PlatformPost
unfolding saved_copy
moved_row now new pp = if pp.status is new then pp else saved_copy now pp (transition_to now new pp)

saved_effect :
    (now : ℕ) (pp : PlatformPost) (rows : Rows) (key : ℕ) (moved : Option PlatformPost)
    → find pp.id rows ≡ some pp
    → find key (moved_turn rows (save_moved now pp.id rows moved)).1
      ≡ (if pp.id == key then some (saved_copy now pp moved) else find key rows)
unfolding moved_turn save_moved saved_copy
saved_effect now pp rows key none found = unmoved pp rows key found
saved_effect now pp rows key (some moved) found =
    find-update pp.id key (save_transition now moved) rows pp (λ r. refl) found

pub move_one-Acts : (now : ℕ) (new : Status) → Acts (move_one now new) (moved_row now new)
unfolding move_one moved_row transition_or_skip moved_turn
move_one-Acts now new pp rows key found = elim (Bool-cases (pp.status is new)) [
  | inl h ↦ simp h (unmoved pp rows key found)
  | inr h ↦ simp h (saved_effect now pp rows key (transition_to now new pp) found)
]

-- What `approve_post` makes of a row: a reviewed row goes on to the client in a workspace with two
-- stages.
unfoldable pub approved_row : ℕ → Bool → PlatformPost → PlatformPost
approved_row now two_stage pp =
    if pp.status is pending_review
    then record pp { status = if two_stage then pending_client else approved; updated_at = now }
    else if pp.status is pending_client || pp.status is on_hold
    then record pp { status = approved; updated_at = now }
    else pp

abbrev entered : Status → PlatformPost → PlatformPost
entered new pp = record pp { status = new }

abbrev saved : ℕ → Status → PlatformPost → Rows → Rows
saved now new pp rows = update pp.id (λ _. true) (save_transition now (entered new pp)) rows

-- The statuses from which an approval moves a row.
abbrev is_approvable : Status → Bool
is_approvable pending_review = true
is_approvable pending_client = true
is_approvable on_hold = true
is_approvable _ = false

approves :
    (now : ℕ) (pp : PlatformPost) (rows : Rows) (s : Status)
    → is_approvable s ≡ true
    → pp.status ≡ s
    → transition_or_skip now approved pp rows
      ≡ some (entered approved pp, saved now approved pp rows)
unfolding transition_or_skip save_moved transition_to can_transition valid_transitions
    settle_transition ◌is◌
approves now pp rows pending_review a e = simp e refl
approves now pp rows pending_client a e = simp e refl
approves now pp rows on_hold a e = simp e refl
approves now pp rows _ a e = ground arith

stays :
    (now : ℕ) (pp : PlatformPost) (rows : Rows) (s : Status)
    → is_approvable s ≡ false
    → pp.status ≡ s
    → (transition_or_skip now approved pp rows ≡ none)
      ⊎ (transition_or_skip now approved pp rows ≡ some (pp, rows))
unfolding transition_or_skip save_moved transition_to can_transition valid_transitions
    settle_transition ◌is◌
stays now pp rows approved a e = inr (simp e refl)
stays now pp rows pending_review a e = ground arith
stays now pp rows pending_client a e = ground arith
stays now pp rows on_hold a e = ground arith
stays now pp rows _ a e = inl (simp e refl)

forwards :
    (now : ℕ) (pp : PlatformPost) (rows : Rows)
    → transition_or_skip now pending_client (entered approved pp) rows
      ≡ some (entered pending_client pp, saved now pending_client pp rows)
unfolding transition_or_skip save_moved transition_to can_transition valid_transitions
    settle_transition ◌is◌
forwards now pp rows = refl

saved_once :
    (now : ℕ) (new : Status) (pp : PlatformPost) (rows : Rows) (key : ℕ)
    → find pp.id rows ≡ some pp
    → find key (saved now new pp rows) ≡ (
        if pp.id == key then some (record pp { status = new; updated_at = now }) else find key rows)
saved_once now new pp rows key found =
    find-update pp.id key (save_transition now (entered new pp)) rows pp (λ r. refl) found

saved_twice :
    (now : ℕ) (first second : Status) (pp : PlatformPost) (rows : Rows) (key : ℕ)
    → find pp.id rows ≡ some pp
    → find key (saved now second pp (saved now first pp rows)) ≡ (
        if pp.id == key
        then some (record pp { status = second; updated_at = now })
        else find key rows)
saved_twice now first second pp rows key found = ground (
  arith,
  saved_once now first pp rows key found,
  saved_once now first pp rows pp.id found,
  ==_refl pp.id,
  find-update pp.id key (save_transition now (entered second pp)) (saved now first pp rows)
      (record pp { status = first; updated_at = now }) (λ r. refl),
)

approve_one_at :
    (now : ℕ) (two_stage : Bool) (pp : PlatformPost) (rows : Rows) (key : ℕ) (s : Status)
    → find pp.id rows ≡ some pp
    → pp.status ≡ s
    → find key (approve_one now two_stage pp rows).1
      ≡ (if pp.id == key then some (approved_row now two_stage pp) else find key rows)
unfolding approve_one approved_row approved_turn client_turn ◌is◌
approve_one_at now true pp rows key pending_review found e =
    simp
      (e, approves now pp rows pending_review refl e, forwards now pp (saved now approved pp rows))
      (saved_twice now approved pending_client pp rows key found)
approve_one_at now false pp rows key pending_review found e =
    simp (e, approves now pp rows pending_review refl e) (saved_once now approved pp rows key found)
approve_one_at now two_stage pp rows key pending_client found e =
    ground
      (arith, approves now pp rows pending_client refl e, saved_once now approved pp rows key found)
approve_one_at now two_stage pp rows key on_hold found e =
    ground (arith, approves now pp rows on_hold refl e, saved_once now approved pp rows key found)
approve_one_at now two_stage pp rows key s found e =
    ground (arith, stays now pp rows s refl e, unmoved pp rows key found)

pub approve_one-Acts :
    (now : ℕ) (two_stage : Bool) → Acts (approve_one now two_stage) (approved_row now two_stage)
approve_one-Acts now two_stage pp rows key found =
    approve_one_at now two_stage pp rows key pp.status found refl

abbrev pub is_plain : Status → Bool
is_plain published = false
is_plain scheduled = false
is_plain _ = true

-- A move that the table allows writes the status and nothing else of the row.
pub moved_row_plain :
    (now : ℕ) (new : Status) (row : PlatformPost)
    → is_plain new ≡ true
    → ((row.status is new) ≡ false) × (can_transition row.status new ≡ true)
    → moved_row now new row ≡ record row { status = new; updated_at = now }
unfolding moved_row saved_copy transition_to settle_transition
moved_row_plain now published row p h = ground arith
moved_row_plain now scheduled row p h = ground arith
moved_row_plain now new row p h = simp (h.0, h.1) refl
