-- ===== src/Members/Invitations/Sends.antt =====
-- How often an invitation is mailed, and what a mail that did not go out leaves behind.
use mathlib.Core.Path.{subst}
use ai_social_brightbean_stu.Common.{
  ℕ, ◌+◌, ◌≡◌, ◌≤◌, refl, Bool, true, ◌&&◌, Option, none, some, List, [], ◌∷◌, arith, ltb,
  if◌then◌else◌, Bool-cases, inl, inr, sym, ap, ◌∙◌, length, IsSpaced,
}
use ai_social_brightbean_stu.Members.Invitations.{
  Invitation, InviteSettings, find_invitation, update_invitation, is_cool, has_slot,
  send_invite_email, taken, given_back,
}

-- A row as a change leaves it.
after : (Invitation → Bool) → (Invitation → Invitation) → Option Invitation → Option Invitation
after test change none = none
after test change (some i) = some (if test i then change i else i)

find-update :
    (key : ℕ) (test : Invitation → Bool) (change : Invitation → Invitation) (rows : List Invitation)
    → ((i : Invitation) → (change i).id ≡ i.id)
    → find_invitation key (update_invitation key test change rows)
      ≡ after test change (find_invitation key rows)
unfolding find_invitation update_invitation after
find-update key test change [] same = refl
find-update key test change (i ∷ rows) same =
    ground (arith, same i, find-update key test change rows same)

found_id :
    (key : ℕ) (rows : List Invitation) (row : Invitation)
    → find_invitation key rows ≡ some row
    → row.id ≡ key
unfolding find_invitation
found_id key [] row h = ground arith
found_id key (i ∷ rows) row h = ground (arith, found_id key rows row)

undo : (now : ℕ) (row : Invitation) → given_back row.last_sent_at (taken now row) ≡ row
undo now row = ground arith

-- A send for an object that has the row's time of the last send: counted and dated if it goes out,
-- and as if nothing had been tried if not.
send_effect :
    (now : ℕ) (s : InviteSettings) (delivered : Bool) (rows : List Invitation)
    (inv row : Invitation)
    → find_invitation inv.id rows ≡ some row
    → inv.last_sent_at ≡ row.last_sent_at
    → ((send_invite_email now s delivered inv rows).0 ≡ (has_slot now s row && delivered))
      × (find_invitation inv.id (send_invite_email now s delivered inv rows).1
          ≡ some (if has_slot now s row && delivered then taken now row else row))
unfolding send_invite_email
send_effect now s delivered rows inv row h last = elim (Bool-cases (has_slot now s row)) [
  | inr busy ↦ (ground (arith, h, busy), ground (arith, h, busy))
  | inl slot ↦
      let reserved = update_invitation inv.id (has_slot now s) (taken now) rows in
      let first = find-update inv.id (has_slot now s) (taken now) rows (λ i. refl) in
      let second =
        find-update inv.id (λ i. ltb 0 i.send_count) (given_back inv.last_sent_at) reserved
          (λ i. refl) in
      elim (Bool-cases delivered) [
        | inl out ↦
            (ground (arith, h, slot, out), unfold after in ground (arith, h, slot, out, first))
        | inr stopped ↦ (
          ground (arith, h, slot, stopped),
          unfold after in ground (arith, h, last, slot, stopped, first, second, undo now row),
        )
      ]
]

module _ (s : InviteSettings) (key : ℕ) where
  -- The instants at which mails of one invitation go out, of attempts at these instants that the mail
  -- server takes or not. Each attempt loads the row.
  pub mailed : List (ℕ × Bool) → List Invitation → List ℕ
  mailed [] rows = []
  mailed ((now, delivered) ∷ rest) rows = elim (find_invitation key rows) [
    | none ↦ []
    | some row ↦
        let (sent, new) = send_invite_email now s delivered row rows in
        let later = mailed rest new in if sent then now ∷ later else later
  ]

  mailed_step :
      (now : ℕ) (delivered : Bool) (rest : List (ℕ × Bool)) (rows : List Invitation)
      (row : Invitation)
      → find_invitation key rows ≡ some row
      → mailed ((now, delivered) ∷ rest) rows ≡ (
          if (send_invite_email now s delivered row rows).0
          then now ∷ mailed rest (send_invite_email now s delivered row rows).1
          else mailed rest (send_invite_email now s delivered row rows).1)
  unfolding mailed
  mailed_step now delivered rest rows row h = rw (h, mailed) refl

  abbrev Fits : ℕ → Option ℕ → List ℕ → Type 0
  Fits count last times = (count + length times ≤ s.max_sends) × IsSpaced s.cooldown last times

  slot_facts :
      (now : ℕ) (row : Invitation)
      → has_slot now s row ≡ true
      → (row.send_count + 1 ≤ s.max_sends) × (is_cool now s.cooldown row.last_sent_at ≡ true)
  unfolding has_slot
  slot_facts now row h = ground arith

  IsSpaced-from :
      (last : Option ℕ) (now : ℕ) (times : List ℕ)
      → is_cool now s.cooldown last ≡ true
      → IsSpaced s.cooldown (some now) times
      → IsSpaced s.cooldown last (now ∷ times)
  unfolding is_cool
  IsSpaced-from none now times h spaced = spaced
  IsSpaced-from (some t) now times h spaced = (ground arith, spaced)

  -- Of whatever attempts at an invitation, the mails that go out and those counted before are no more
  -- than the settings allow, each a whole cooldown or more after the one before it; an attempt whose
  -- mail does not go out costs nothing and starts no cooldown.
  pub mails_bounded :
      (attempts : List (ℕ × Bool)) (rows : List Invitation) (row : Invitation)
      → find_invitation key rows ≡ some row
      → row.send_count ≤ s.max_sends
      → (row.send_count + length (mailed attempts rows) ≤ s.max_sends)
        × IsSpaced s.cooldown row.last_sent_at (mailed attempts rows)
  mails_bounded [] rows row h low = unfold mailed in (omega arith, tt)
  mails_bounded ((now, delivered) ∷ rest) rows row h low =
      let e : row.id ≡ key = found_id key rows row h in
      let new = (send_invite_email now s delivered row rows).1 in
      let (sent, kept) =
        send_effect now s delivered rows row row (ap (λ k. find_invitation k rows) e ∙ h) refl in
      let found = ap (λ k. find_invitation k new) (sym e) ∙ kept in
      elim (Bool-cases (has_slot now s row && delivered)) [
        | inr stays ↦
            let same : find_invitation key new ≡ some row = ground (arith, found, stays) in
            let step : mailed ((now, delivered) ∷ rest) rows ≡ mailed rest new =
              ground (arith, mailed_step now delivered rest rows row h, sent, stays) in
            subst (Fits row.send_count row.last_sent_at) (sym step)
              (mails_bounded rest new row same low)
        | inl goes ↦
            let next : find_invitation key new ≡ some (taken now row) =
              ground (arith, found, goes) in
            let step : mailed ((now, delivered) ∷ rest) rows ≡ now ∷ mailed rest new =
              ground (arith, mailed_step now delivered rest rows row h, sent, goes) in
            let slot : has_slot now s row ≡ true = ground (arith, goes) in
            let (room, cool) = slot_facts now row slot in
            let (few, spaced) = mails_bounded rest new (taken now row) next room in
            subst (Fits row.send_count row.last_sent_at) (sym step)
              (omega (arith, few), IsSpaced-from row.last_sent_at now _ cool spaced)
      ]
