-- ===== src/Examples/Answering.antt =====
-- A refused answer in the inbox, a new magic link, and two refusals of a quota.
use ai_social_brightbean_stu.Common.{
  ◌≡◌, ◌≤◌, refl, true, false, none, some, List, [], ◌∷◌, arith, All, In,
}
use ai_social_brightbean_stu.Providers.Exceptions.{Kind, ProviderException}
use ai_social_brightbean_stu.Members.Roles.{WorkspaceRole, WorkspaceMembership}
use ai_social_brightbean_stu.Inbox.Replies.{
  InboxMessage, MessageType, MessageStatus, InboxReply, ReplyStatus, Desk, Result, Platform,
  find_reply, find_message, send_reply, is_not_implemented,
}
use ai_social_brightbean_stu.Inbox.Replies.Once.{Call, desk_after}
use ai_social_brightbean_stu.Inbox.Replies.Kept.{sent_is_permanent}
use ai_social_brightbean_stu.Inbox.Replies.Refused.{refused_answer_leaves_nothing}
use ai_social_brightbean_stu.ClientPortal.Links.{
  MagicLinkToken, new_link, generate_magic_link, is_client,
}
use ai_social_brightbean_stu.ClientPortal.Links.Single.{
  Event, all_entries, unused, issued, single_use,
}
use ai_social_brightbean_stu.ClientPortal.Links.Issue.{IsOnly, one_live_link}
use ai_social_brightbean_stu.Quota.Breaker.{Budget, quota_blocked_until, still_blocked, deadline}
use ai_social_brightbean_stu.Quota.Breaker.Latest.{trip_all, latest_of, blocked_until_latest}
use ai_social_brightbean_stu.Quota.Breaker.Cached.{Use, answers, cached_run_exact}

abbrev question : InboxMessage
question = record {
  id = 1;
  workspace = 50;
  message_type = MessageType.dm;
  platform_message_id = 900;
  received_at = 10;
  status = MessageStatus.unread;
}

abbrev answer : InboxReply
answer = record {
  id = 4;
  inbox_message = 1;
  author = some 2;
  body = 11;
  status = ReplyStatus.sent;
  platform_reply_id = some 901;
  send_error = none;
  sent_at = some 20;
}

abbrev inbox : Desk
inbox = record {
  messages = question ∷ [];
  replies = answer ∷ [];
  auto_resolve = λ workspace. true;
  taken = [];
}

abbrev limited : ProviderException
limited = record {
  kind = Kind.rate_limit;
  status_code = some 429;
  expired_code = false;
  retryable = true;
  resets_at = none;
  retry_after = none;
  prose = none;
}

-- One reply is created, edited, refused, sent and sent again.
abbrev busy : List Call
busy =
    Call.creates 5 1 (some 12) (some 2)
    ∷ Call.edits 5 (some 13)
    ∷ Call.sends 30 (some 2) (Platform.raises limited) true 5
    ∷ Call.sends 40 (some 2) (Platform.takes 902) true 5
    ∷ Call.sends 50 (some 3) (Platform.takes 903) true 5
    ∷ []

answered : find_reply 4 inbox.replies ≡ some answer
unfolding find_reply
answered = refl

sent_is_permanent_example :
    find_reply 4 (desk_after (Call.edits 4 (some 99) ∷ Call.discards 4 ∷ busy) inbox).replies
    ≡ some answer
sent_is_permanent_example =
    sent_is_permanent 4 answer (Call.edits 4 (some 99) ∷ Call.discards 4 ∷ busy) inbox
      (answered, refl)

asked : find_message 1 inbox.messages ≡ some question
unfolding find_message
asked = refl

implemented : is_not_implemented limited.kind ≡ false
unfolding is_not_implemented
implemented = refl

refused_answer_leaves_nothing_example :
    send_reply 30 (Platform.raises limited) true 5 1 (some 12) (some 2) inbox
    ≡ (Result.raised limited, inbox)
refused_answer_leaves_nothing_example =
    refused_answer_leaves_nothing 30 5 1 12 limited true (some 2) question inbox (refl, tt) asked
      implemented

abbrev client_row : WorkspaceMembership
client_row = record {
  user = 6;
  workspace = 50;
  workspace_role = WorkspaceRole.client;
  custom_role = none;
}

abbrev old_link : MagicLinkToken
old_link = new_link 5 1 101 6 50

is_a_client : is_client 6 50 (client_row ∷ []) ≡ true
unfolding is_client
is_a_client = refl

one_live_link_example :
    let after = (generate_magic_link 100 110 true 2 102 6 50 (client_row ∷ []) (old_link ∷ [])).1 in
    (In (new_link 100 2 102 6 50) after) × All (IsOnly 120 6 50 (new_link 100 2 102 6 50)) after
one_live_link_example =
    one_live_link 100 110 120 2 102 6 50 (client_row ∷ []) (old_link ∷ []) (omega arith)
      (omega arith) (refl, tt) is_a_client

-- The old link is opened twice, and by a request that read it before.
single_use_example :
    all_entries 1
      (Event.opens 20 101 ∷ Event.opens 21 101 ∷ Event.flips 22 old_link ∷ [])
      (old_link ∷ [])
    ≤ 1
unfolding unused issued
single_use_example =
    single_use 1 (Event.opens 20 101 ∷ Event.opens 21 101 ∷ Event.flips 22 old_link ∷ [])
      (old_link ∷ [])

abbrev pool : Budget
pool = record { platform = 1; credential_key = 2; quota_scope = 0 }

blocked_until_latest_example :
    (quota_blocked_until 50 pool
      (trip_all ((pool, 900) ∷ (pool, 100) ∷ []) (record { cache = none; blocks = [] }))).0
    ≡ still_blocked 50 (latest_of pool ((pool, 900) ∷ (pool, 100) ∷ []) (deadline pool []))
blocked_until_latest_example = blocked_until_latest 50 pool ((pool, 900) ∷ (pool, 100) ∷ []) []

abbrev uses : List Use
uses = Use.asks 10 pool ∷ Use.trips pool 900 ∷ Use.trips pool 100 ∷ Use.asks 20 pool ∷ []

cached_run_exact_example :
    answers uses (record { cache = some []; blocks = [] })
    ≡ answers uses (record { cache = none; blocks = [] })
cached_run_exact_example = cached_run_exact uses []
