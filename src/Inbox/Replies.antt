-- ===== src/Inbox/Replies.antt =====
-- The life of a reply: `InboxReply` of apps/inbox/models.py and the functions of
-- apps/inbox/services.py on it. What the platform does with a reply is an input, and so is whether the
-- bookkeeping after it goes through. A body stands for its stripped text, `none` for a blank one.
pub mod Once
pub mod Kept
pub mod Refused
use ai_social_brightbean_stu.Common.{
  ℕ, ◌+◌, ◌*◌, Bool, true, false, not, ◌&&◌, Option, none, some, List, [], ◌∷◌, ◌++◌, map, String,
  filter, ltb, ◌==◌, if◌then◌else◌, or_else,
}
use ai_social_brightbean_stu.Providers.Exceptions.{Kind, ProviderException, second, is_rate_limit}

pub data MessageStatus : Type 0 where
  unread opened resolved archived : MessageStatus

pub data MessageType : Type 0 where
  comment mention dm review : MessageType

pub record InboxMessage : Type 0 where
  pub id : ℕ
  pub workspace : ℕ
  pub message_type : MessageType
  pub platform_message_id : ℕ
  pub received_at : ℕ
  pub status : MessageStatus

pub data ReplyStatus : Type 0 where
  draft sent failed : ReplyStatus

pub record InboxReply : Type 0 where
  pub id : ℕ
  pub inbox_message : ℕ
  pub author : Option ℕ
  pub body : ℕ
  pub status : ReplyStatus
  pub platform_reply_id : Option ℕ
  pub send_error : Option String
  pub sent_at : Option ℕ

-- The call that reaches the platform.
pub data Dispatch : Type 0 where
  reply_to_comment : (comment_id body : ℕ) → Dispatch
  reply_to_message : (message_id body : ℕ) → Bool → Dispatch

-- The tables, whether the workspace resolves on a reply, and what the platform took, newest first,
-- each with the id of its reply.
pub record Desk : Type 0 where
  pub messages : List InboxMessage
  pub replies : List InboxReply
  pub auto_resolve : ℕ → Bool
  pub taken : List (ℕ × Dispatch)

-- What a call comes to: the reply, a `ReplyStateError`, a `ValueError` or the platform's exception.
pub data Result : Type 0 where
  done state_error value_error : Result
  raised : ProviderException → Result

-- What the platform does: it takes the reply under an id of its own, or raises.
pub data Platform : Type 0 where
  takes : ℕ → Platform
  raises : ProviderException → Platform

-- `_COMMENT_LIKE_TYPES`
is_comment_like : MessageType → Bool
is_comment_like MessageType.dm = false
is_comment_like _ = true

-- `HUMAN_AGENT_AFTER`
abbrev pub human_agent_after : ℕ
human_agent_after = 24 * 3600 * second

-- The call that `_dispatch_to_platform` makes.
unfoldable pub dispatch_of : ℕ → InboxMessage → ℕ → Dispatch
unfolding is_comment_like
dispatch_of now m body =
    if is_comment_like m.message_type
    then Dispatch.reply_to_comment m.platform_message_id body
    else Dispatch.reply_to_message m.platform_message_id body
        (ltb (m.received_at + human_agent_after) now)

abbrev is_expired_connection : Kind → Bool
is_expired_connection Kind.token_expired = true
is_expired_connection Kind.oauth_error = true
is_expired_connection _ = false

unfoldable pub reply_failure_reason : ProviderException → String
reply_failure_reason e =
    if is_rate_limit e.kind
    then "the account has hit its rate limit. Wait a few minutes and try again."
    else if is_expired_connection e.kind
    then "the connection has expired. Reconnect the account in Workspace Settings."
    else "the platform rejected it. Try again, or reconnect the account if this keeps happening."

-- `_SENDABLE_STATUSES`
abbrev pub is_sendable : ReplyStatus → Bool
is_sendable ReplyStatus.draft = true
is_sendable ReplyStatus.failed = true
is_sendable ReplyStatus.sent = false

abbrev pub is_failed : ReplyStatus → Bool
is_failed ReplyStatus.failed = true
is_failed _ = false

unfoldable pub find_reply : ℕ → List InboxReply → Option InboxReply
find_reply key [] = none
find_reply key (r ∷ rs) = let rest = find_reply key rs in if r.id == key then some r else rest

unfoldable pub find_message : ℕ → List InboxMessage → Option InboxMessage
find_message key [] = none
find_message key (m ∷ ms) = let rest = find_message key ms in if m.id == key then some m else rest

-- The status of a message after a reply, for a workspace that resolves on a reply and one that not.
unfoldable pub status_after : Bool → MessageStatus → MessageStatus
status_after true status = MessageStatus.resolved
status_after false MessageStatus.unread = MessageStatus.opened
status_after false status = status

-- `_apply_post_send_side_effects`
unfoldable pub apply_post_send_side_effects : InboxMessage → Desk → Desk
apply_post_send_side_effects m d = record d {
  messages =
      map
        (λ o.
          if o.id == m.id
          then record o { status = status_after (d.auto_resolve m.workspace) m.status }
          else o)
        d.messages;
}

abbrev pub new_draft : ℕ → ℕ → Option ℕ → ℕ → InboxReply
new_draft id message author body = record {
  id = id;
  inbox_message = message;
  author = author;
  body = body;
  status = ReplyStatus.draft;
  platform_reply_id = none;
  send_error = none;
  sent_at = none;
}

-- New rows come last, as the table is ordered by `created_at`.
unfoldable pub create_reply_draft : ℕ → ℕ → Option ℕ → Option ℕ → Desk → Result × Desk
create_reply_draft id message none author d = (value_error, d)
create_reply_draft id message (some body) author d =
    (done, record d { replies = d.replies ++ (new_draft id message author body ∷ []) })

-- `reply.save(update_fields=...)` of the locked row, the one row with its id.
unfoldable pub save_reply : InboxReply → List InboxReply → List InboxReply
save_reply r [] = []
save_reply r (o ∷ os) = let rest = save_reply r os in if o.id == r.id then r ∷ os else o ∷ rest

unfoldable pub update_reply_draft : ℕ → Option ℕ → Desk → Result × Desk
update_reply_draft key body d = elim (find_reply key d.replies) [
  | none ↦ (state_error, d)
  | some r ↦ if not (is_sendable r.status) then (state_error, d) else elim body [
    | none ↦ (value_error, d)
    | some b ↦ (done, record d { replies = save_reply (record r { body = b }) d.replies })
  ]
]

unfoldable pub discard_reply_draft : ℕ → Desk → Result × Desk
discard_reply_draft key d = elim (find_reply key d.replies) [
  | none ↦ (state_error, d)
  | some r ↦
      if not (is_sendable r.status)
      then (state_error, d)
      else (done, record d { replies = filter (λ o. not (o.id == key)) d.replies })
]

abbrev sent_row : ℕ → Option ℕ → Option ℕ → InboxReply → InboxReply
sent_row now actor platform_id r = record r {
  author = or_else r.author actor;
  status = ReplyStatus.sent;
  platform_reply_id = platform_id;
  send_error = none;
  sent_at = some now;
}

abbrev failed_row : Option ℕ → ProviderException → InboxReply → InboxReply
failed_row actor e r = record r {
  author = or_else r.author actor;
  status = ReplyStatus.failed;
  send_error = some (reply_failure_reason e);
}

unfoldable pub is_not_implemented : Kind → Bool
is_not_implemented Kind.not_implemented = true
is_not_implemented _ = false

-- Bookkeeping that fails is logged.
after_send : Bool → InboxMessage → Desk → Desk
after_send books m d = if books then apply_post_send_side_effects m d else d

-- The dispatch of a locked row that may be sent, and what is saved of it.
unfoldable pub deliver :
    ℕ → Option ℕ → Platform → Bool → InboxReply → InboxMessage → Desk → Result × Desk
unfolding after_send is_not_implemented
deliver now actor (Platform.takes platform_id) books r m d = (
  done,
  after_send books m (record d {
    replies = save_reply (sent_row now actor (some platform_id) r) d.replies;
    taken = (r.id, dispatch_of now m r.body) ∷ d.taken;
  }),
)
deliver now actor (Platform.raises e) books r m d =
    if is_not_implemented e.kind
    then (
      done,
      after_send books m (record d { replies = save_reply (sent_row now actor none r) d.replies }),
    )
    else (raised e, record d { replies = save_reply (failed_row actor e r) d.replies })

-- `send_reply_now`, under the lock. A reply's message exists, since replies go with their message.
unfoldable pub send_reply_now : ℕ → Option ℕ → Platform → Bool → ℕ → Desk → Result × Desk
send_reply_now now actor p books key d = elim (find_reply key d.replies) [
  | none ↦ (state_error, d)
  | some r ↦
      if not (is_sendable r.status)
      then (state_error, d)
      else elim (find_message r.inbox_message d.messages) [
        | none ↦ (state_error, d)
        | some m ↦ deliver now actor p books r m d
      ]
]

-- After an exception the failed row goes.
unfoldable pub clean_up : ℕ → Result × Desk → Result × Desk
clean_up key (done, d) = (done, d)
clean_up key (r, d) =
    (r, record d { replies = filter (λ o. not (o.id == key && is_failed o.status)) d.replies })

-- `send_reply` with the new row's id.
unfoldable pub send_reply : ℕ → Platform → Bool → ℕ → ℕ → Option ℕ → Option ℕ → Desk → Result × Desk
unfolding clean_up
send_reply now p books id message none author d = (value_error, d)
send_reply now p books id message (some body) author d =
    clean_up id
      (send_reply_now now author p books id (create_reply_draft id message (some body) author d).1)
