-- ===== src/Inbox/Replies/Kept.antt =====
-- Replies that were sent stay, and an answer that the platform refuses leaves nothing.
use mathlib.Core.Path.{subst}
use ai_social_brightbean_stu.Common.{
  ℕ, ◌≡◌, refl, ap, ◌∙◌, Bool, true, false, not, ◌&&◌, Option, none, some, List, [], ◌∷◌, ◌++◌,
  filter, arith, ◌==◌, Bool-cases, inl, inr, ==→eq,
}
use ai_social_brightbean_stu.Inbox.Replies.{
  InboxMessage, InboxReply, ReplyStatus, Desk, Result, Platform, is_sendable, is_failed, find_reply,
  find_message, create_reply_draft, save_reply, update_reply_draft, discard_reply_draft, sent_row,
  failed_row, deliver, send_reply_now, clean_up, send_reply, apply_post_send_side_effects,
  after_send, is_not_implemented,
}
use ai_social_brightbean_stu.Inbox.Replies.Once.{find_id, Call, call, desk_after}

-- The reply is in the table as this row, and was sent.
abbrev pub IsSentAs : ℕ → InboxReply → Desk → Type 0
IsSentAs key r d = (find_reply key d.replies ≡ some r) × (r.status ≡ ReplyStatus.sent)

find-append :
    (key : ℕ) (rs ss : List InboxReply) (r : InboxReply)
    → find_reply key rs ≡ some r
    → find_reply key (rs ++ ss) ≡ some r
unfolding find_reply
find-append key [] ss r e = ground arith
find-append key (s ∷ rs) ss r e = ground (arith, find-append key rs ss r)

find-save :
    (key : ℕ) (n : InboxReply) (rs : List InboxReply)
    → (n.id == key) ≡ false
    → find_reply key (save_reply n rs) ≡ find_reply key rs
unfolding find_reply save_reply
find-save key n [] h = refl
find-save key n (s ∷ ss) h = ground (arith, find-save key n ss h)

find-discard :
    (key k : ℕ) (rs : List InboxReply)
    → (k == key) ≡ false
    → find_reply key (filter (λ o. not (o.id == k)) rs) ≡ find_reply key rs
unfolding find_reply
find-discard key k [] h = refl
find-discard key k (s ∷ ss) h = ground (arith, find-discard key k ss h)

find-clean :
    (key k : ℕ) (rs : List InboxReply) (r : InboxReply)
    → find_reply key rs ≡ some r
    → r.status ≡ ReplyStatus.sent
    → find_reply key (filter (λ o. not (o.id == k && is_failed o.status)) rs) ≡ some r
unfolding find_reply
find-clean key k [] r e h = ground arith
find-clean key k (s ∷ ss) r e h = elim (Bool-cases (s.id == key)) [
  | inl t ↦ head t (==→eq s.id key t)
  | inr t ↦ ground (arith, find-clean key k ss r)
]
  where
    first : (s.id == key) ≡ true → s ≡ r
    first t = ground arith

    head :
        (s.id == key) ≡ true
        → s.id ≡ key
        → find_reply key (filter (λ o. not (o.id == k && is_failed o.status)) (s ∷ ss)) ≡ some r
    head t same = ground (arith, ap is_failed (ap (λ (o : InboxReply). o.status) (first t) ∙ h))

-- The row of a call that goes on is another one.
other_row :
    (key k : ℕ) (r o : InboxReply) (rows : List InboxReply)
    → find_reply key rows ≡ some r
    → r.status ≡ ReplyStatus.sent
    → find_reply k rows ≡ some o
    → is_sendable o.status ≡ true
    → ((k == key) ≡ false) × ((o.id == key) ≡ false)
other_row key k r o rows e h f g = elim (Bool-cases (k == key)) [
  | inl t ↦ absurd (clash (subst (λ i. find_reply i rows ≡ some o) (==→eq k key t) f))
  | inr t ↦ (t, ap (λ i. i == key) (find_id k o rows f) ∙ t)
]
  where
    clash : find_reply key rows ≡ some o → ⊥
    clash f2 = ground arith

module _ (key : ℕ) (r : InboxReply) where
  edit_keeps :
      (k : ℕ) (body : Option ℕ) (d : Desk)
      → IsSentAs key r d
      → find_reply key (update_reply_draft k body d).1.replies ≡ some r
  unfolding update_reply_draft
  edit_keeps k body d h = go (find_reply k d.replies) refl
    where
      change :
          (o : InboxReply) (b : Option ℕ)
          → find_reply k d.replies ≡ some o
          → is_sendable o.status ≡ true
          → find_reply key (update_reply_draft k b d).1.replies ≡ some r
      change o none f g = ground arith
      change o (some b) f g =
          let apart = other_row key k r o d.replies h.0 h.1 f g in
          ground (arith, find-save key (record o { body = b }) d.replies apart.1)

      go :
          (f : Option InboxReply)
          → find_reply k d.replies ≡ f
          → find_reply key (update_reply_draft k body d).1.replies ≡ some r
      go none f = ground arith
      go (some o) f = elim (Bool-cases (is_sendable o.status)) [
        | inl g ↦ change o body f g
        | inr g ↦ ground arith
      ]

  discard_keeps :
      (k : ℕ) (d : Desk)
      → IsSentAs key r d
      → find_reply key (discard_reply_draft k d).1.replies ≡ some r
  unfolding discard_reply_draft
  discard_keeps k d h = go (find_reply k d.replies) refl
    where
      go :
          (f : Option InboxReply)
          → find_reply k d.replies ≡ f
          → find_reply key (discard_reply_draft k d).1.replies ≡ some r
      go none f = ground arith
      go (some o) f = elim (Bool-cases (is_sendable o.status)) [
        | inl g ↦
            let apart = other_row key k r o d.replies h.0 h.1 f g in
            ground (arith, find-discard key k d.replies apart.0)
        | inr g ↦ ground arith
      ]

  books_keep :
      (books : Bool) (m : InboxMessage) (d : Desk) → (after_send books m d).replies ≡ d.replies
  unfolding after_send apply_post_send_side_effects
  books_keep true m d = refl
  books_keep false m d = refl

  deliver_keeps :
      (now : ℕ) (actor : Option ℕ) (p : Platform) (books : Bool) (o : InboxReply) (m : InboxMessage)
      (d : Desk)
      → find_reply key d.replies ≡ some r
      → (o.id == key) ≡ false
      → find_reply key (deliver now actor p books o m d).1.replies ≡ some r
  unfolding deliver
  deliver_keeps now actor (Platform.takes platform_id) books o m d e f =
      ap (find_reply key) (books_keep books m _)
      ∙ (find-save key (sent_row now actor (some platform_id) o) d.replies f ∙ e)
  deliver_keeps now actor (Platform.raises exc) books o m d e f =
      elim (Bool-cases (is_not_implemented exc.kind)) [
        | inl t ↦ rw t (
            ap (find_reply key) (books_keep books m _)
            ∙ (find-save key (sent_row now actor none o) d.replies f ∙ e))
        | inr t ↦ rw t (find-save key (failed_row actor exc o) d.replies f ∙ e)
      ]

  send_keeps :
      (now : ℕ) (actor : Option ℕ) (p : Platform) (books : Bool) (k : ℕ) (d : Desk)
      → IsSentAs key r d
      → find_reply key (send_reply_now now actor p books k d).1.replies ≡ some r
  unfolding send_reply_now
  send_keeps now actor p books k d h = go (find_reply k d.replies) refl
    where
      sends :
          (o : InboxReply) (f : Option InboxMessage)
          → find_reply k d.replies ≡ some o
          → is_sendable o.status ≡ true
          → find_message o.inbox_message d.messages ≡ f
          → find_reply key (send_reply_now now actor p books k d).1.replies ≡ some r
      sends o none e g f = ground arith
      sends o (some m) e g f =
          let apart = other_row key k r o d.replies h.0 h.1 e g in
          ground (arith, deliver_keeps now actor p books o m d h.0 apart.1)

      go :
          (f : Option InboxReply)
          → find_reply k d.replies ≡ f
          → find_reply key (send_reply_now now actor p books k d).1.replies ≡ some r
      go none f = ground arith
      go (some o) f = elim (Bool-cases (is_sendable o.status)) [
        | inl g ↦ sends o (find_message o.inbox_message d.messages) f g refl
        | inr g ↦ ground arith
      ]

  clean_keeps :
      (k : ℕ) (c : Result × Desk)
      → IsSentAs key r c.1
      → find_reply key (clean_up k c).1.replies ≡ some r
  unfolding clean_up
  clean_keeps k (Result.done, d) h = h.0
  clean_keeps k (Result.state_error, d) h = find-clean key k d.replies r h.0 h.1
  clean_keeps k (Result.value_error, d) h = find-clean key k d.replies r h.0 h.1
  clean_keeps k (Result.raised e, d) h = find-clean key k d.replies r h.0 h.1

  sent_kept_by :
      (c : Call) (d : Desk) → IsSentAs key r d → find_reply key (call c d).1.replies ≡ some r
  unfolding call create_reply_draft send_reply
  sent_kept_by (Call.creates id message none author) d h = h.0
  sent_kept_by (Call.creates id message (some body) author) d h = find-append key d.replies _ r h.0
  sent_kept_by (Call.edits k body) d h = edit_keeps k body d h
  sent_kept_by (Call.discards k) d h = discard_keeps k d h
  sent_kept_by (Call.sends now actor p books k) d h = send_keeps now actor p books k d h
  sent_kept_by (Call.answers now p books id message none author) d h = h.0
  sent_kept_by (Call.answers now p books id message (some body) author) d h =
      clean_keeps id _
        (send_keeps now author p books id _ (find-append key d.replies _ r h.0, h.1), h.1)

-- A reply that was sent stays in the table as it is, whoever creates, edits, sends and discards
-- replies afterwards.
pub sent_is_permanent :
    (key : ℕ) (r : InboxReply) (cs : List Call) (d : Desk)
    → IsSentAs key r d
    → find_reply key (desk_after cs d).replies ≡ some r
unfolding desk_after
sent_is_permanent key r [] d h = h.0
sent_is_permanent key r (c ∷ cs) d h =
    sent_is_permanent key r cs (call c d).1 (sent_kept_by key r c d h, h.1)
