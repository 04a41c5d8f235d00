-- ===== src/Inbox/Replies/Once.antt =====
-- How often the platform takes a reply.
use ai_social_brightbean_stu.Common.{
  one_if, ℕ, ◌+◌, ◌≡◌, Bool, ◌&&◌, Option, some, List, [], ◌∷◌, arith, ◌==◌,
}
use ai_social_brightbean_stu.Inbox.Replies.{
  InboxReply, Desk, Result, Platform, Dispatch, is_sendable, find_reply, create_reply_draft,
  update_reply_draft, discard_reply_draft, send_reply_now, send_reply,
}

-- A call of one of the functions by anybody.
pub data Call : Type 0 where
  creates : (id message : ℕ) → Option ℕ → Option ℕ → Call
  edits : ℕ → Option ℕ → Call
  discards : ℕ → Call
  sends : ℕ → Option ℕ → Platform → Bool → ℕ → Call
  answers : ℕ → Platform → Bool → (id message : ℕ) → Option ℕ → Option ℕ → Call

unfoldable pub call : Call → Desk → Result × Desk
call (Call.creates id message body author) d = create_reply_draft id message body author d
call (Call.edits key body) d = update_reply_draft key body d
call (Call.discards key) d = discard_reply_draft key d
call (Call.sends now actor p books key) d = send_reply_now now actor p books key d
call (Call.answers now p books id message body author) d =
    send_reply now p books id message body author d

unfoldable pub desk_after : List Call → Desk → Desk
desk_after [] d = d
desk_after (c ∷ cs) d = desk_after cs (call c d).1

-- How often the platform took the reply.
unfoldable pub deliveries : ℕ → List (ℕ × Dispatch) → ℕ
deliveries key [] = 0
deliveries key (t ∷ ts) = one_if (t.0 == key) + deliveries key ts

-- The rows of the reply that were not sent.
unfoldable pub unsent : ℕ → List InboxReply → ℕ
unsent key [] = 0
unsent key (r ∷ rs) = one_if (r.id == key && is_sendable r.status) + unsent key rs

-- How often the calls create the reply.
unfoldable pub created : ℕ → List Call → ℕ
created key [] = 0
created key (Call.creates id _ _ _ ∷ cs) = one_if (id == key) + created key cs
created key (Call.edits _ _ ∷ cs) = created key cs
created key (Call.discards _ ∷ cs) = created key cs
created key (Call.sends _ _ _ _ _ ∷ cs) = created key cs
created key (Call.answers _ _ _ id _ _ _ ∷ cs) = one_if (id == key) + created key cs

-- What a desk has of the reply: deliveries, and rows that may still be sent.
unfoldable pub chances : ℕ → Desk → ℕ
chances key d = deliveries key d.taken + unsent key d.replies

pub find_id :
    (key : ℕ) (r : InboxReply) (rs : List InboxReply) → find_reply key rs ≡ some r → r.id ≡ key
unfolding find_reply
find_id key r [] e = ground arith
find_id key r (s ∷ ss) e = ground (arith, find_id key r ss)
