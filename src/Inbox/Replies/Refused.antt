-- ===== src/Inbox/Replies/Refused.antt =====
-- An answer that the platform refuses.
use ai_social_brightbean_stu.Common.{
  ℕ, ◌≡◌, refl, ap, ◌∙◌, Bool, true, false, not, ◌&&◌, Option, some, List, [], ◌∷◌, ◌++◌, filter,
  arith, ◌==◌, All, ==_refl,
}
use ai_social_brightbean_stu.Providers.Exceptions.{ProviderException}
use ai_social_brightbean_stu.Inbox.Replies.{
  InboxMessage, InboxReply, Desk, Result, Platform, is_sendable, is_failed, find_reply,
  find_message, new_draft, create_reply_draft, save_reply, failed_row, deliver, send_reply_now,
  clean_up, send_reply, is_not_implemented,
}

-- No reply has the id.
abbrev pub IsUnused : ℕ → List InboxReply → Type 0
IsUnused id rows = All (λ o. (o.id == id) ≡ false) rows

find-last :
    (rows : List InboxReply) (r : InboxReply)
    → IsUnused r.id rows
    → find_reply r.id (rows ++ (r ∷ [])) ≡ some r
unfolding find_reply
find-last [] r h = ground (arith, ==_refl r.id)
find-last (o ∷ os) r h = ground (arith, find-last os r h.1)

save-last :
    (rows : List InboxReply) (r n : InboxReply)
    → IsUnused n.id rows
    → (r.id == n.id) ≡ true
    → save_reply n (rows ++ (r ∷ [])) ≡ rows ++ (n ∷ [])
unfolding save_reply
save-last [] r n h t = ground arith
save-last (o ∷ os) r n h t = ground (arith, save-last os r n h.1 t)

drop-last :
    (id : ℕ) (rows : List InboxReply) (n : InboxReply)
    → IsUnused id rows
    → (n.id == id && is_failed n.status) ≡ true
    → filter (λ o. not (o.id == id && is_failed o.status)) (rows ++ (n ∷ [])) ≡ rows
drop-last id [] n h t = rw t refl
drop-last id (o ∷ os) n h t = ground (arith, drop-last id os n h.1 t)

-- A send that the platform refuses marks the row.
refused_send :
    (now key : ℕ) (e : ProviderException) (books : Bool) (author : Option ℕ) (r : InboxReply)
    (m : InboxMessage) (d : Desk)
    → find_reply key d.replies ≡ some r
    → is_sendable r.status ≡ true
    → find_message r.inbox_message d.messages ≡ some m
    → is_not_implemented e.kind ≡ false
    → send_reply_now now author (Platform.raises e) books key d
      ≡ (Result.raised e, record d { replies = save_reply (failed_row author e r) d.replies })
unfolding send_reply_now deliver
refused_send now key e books author r m d h g f k = ground arith

-- An answer that the platform refuses raises the platform's exception and leaves every table as it
-- was, if the answer has a text, its row's id is new and its message exists. A provider that cannot
-- answer at all does not refuse.
pub refused_answer_leaves_nothing :
    (now id message body : ℕ) (e : ProviderException) (books : Bool) (author : Option ℕ)
    (m : InboxMessage) (d : Desk)
    → IsUnused id d.replies
    → find_message message d.messages ≡ some m
    → is_not_implemented e.kind ≡ false
    → send_reply now (Platform.raises e) books id message (some body) author d
      ≡ (Result.raised e, d)
unfolding send_reply create_reply_draft clean_up
refused_answer_leaves_nothing now id message body e books author m d h f k =
    let row = new_draft id message author body in
    let bad = failed_row author e row in
    let with_row : Desk = record d { replies = d.replies ++ (row ∷ []) } in
    ap (λ c. clean_up id c)
      (refused_send now id e books author row m with_row (find-last d.replies row h) refl f k)
    ∙ ap (λ rows. (Result.raised e, record d { replies = rows }))
        (ap (filter (λ o. not (o.id == id && is_failed o.status)))
            (save-last d.replies row bad h (==_refl id))
          ∙ drop-last id d.replies bad h (ap (λ b. b && true) (==_refl id)))
