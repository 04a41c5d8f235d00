-- ===== src/Approvals/Desk.antt =====
-- What the approval services keep (apps/approvals/models.py), and whom they notify. A notification is
-- one entry for each recipient; the texts are left out.
use ai_social_brightbean_stu.Common.{
  ℕ, String, Bool, true, false, not, ◌&&◌, Option, none, some, List, [], ◌∷◌, ◌++◌, map, ◌==◌,
  if◌then◌else◌, filter,
}
use ai_social_brightbean_stu.Composer.PlatformPost.{Post}
use ai_social_brightbean_stu.Composer.Rows.{Rows}

-- `ApprovalAction.ActionType`
pub data ActionType : Type 0 where
  submission approval changes_request rejection resubmission hold : ActionType

-- `ApprovalAction`; a decision on the whole post names no row.
pub record ApprovalAction : Type 0 where
  pub post_id : ℕ
  pub platform_post : Option ℕ
  pub user : ℕ
  pub action : ActionType
  pub comment : Option String

pub data Stage : Type 0 where
  review_stage client_stage : Stage

abbrev pub same_stage : Stage → Stage → Bool
same_stage review_stage review_stage = true
same_stage client_stage client_stage = true
same_stage _ _ = false

pub record ApprovalReminder : Type 0 where
  pub post_id : ℕ
  pub stage : Stage
  pub reminder_count : ℕ
  pub last_reminder_at : Option ℕ
  pub escalated : Bool

pub data EventType : Type 0 where
  post_submitted post_approved post_changes_requested post_rejected : EventType
  approval_hold_requested client_approval_requested approval_reminder approval_stalled : EventType

pub record Notice : Type 0 where
  pub user : ℕ
  pub event : EventType
  pub post_id : ℕ

-- A membership: its user, whether its effective permissions hold `approve_posts`, and its role.
pub record Member : Type 0 where
  pub user : ℕ
  pub approve_posts : Bool
  pub is_client : Bool
  pub is_manager : Bool

pub record Workspace : Type 0 where
  -- The mode is `required_internal_and_client`.
  pub two_stage : Bool
  pub members : List Member

pub record Desk : Type 0 where
  pub rows : Rows
  pub posts : List Post
  pub actions : List ApprovalAction
  pub reminders : List ApprovalReminder
  pub notices : List Notice

-- Every member that passes the test is notified.
abbrev pub notify_members : Workspace → (Member → Bool) → EventType → ℕ → Desk → Desk
notify_members workspace test event post_id desk = record desk {
  notices =
      map (λ m. record { user = m.user; event = event; post_id = post_id })
        (filter test workspace.members)
      ++ desk.notices;
}

-- `_notify_reviewers`
unfoldable pub notify_reviewers : Workspace → ℕ → EventType → ℕ → Desk → Desk
notify_reviewers workspace actor event post_id desk =
    notify_members workspace (λ m. m.approve_posts && not (m.user == actor)) event post_id desk

-- `_notify_clients`
unfoldable pub notify_clients : Workspace → ℕ → Desk → Desk
notify_clients workspace post_id desk =
    notify_members workspace (λ m. m.is_client) client_approval_requested post_id desk

notify_other : Option ℕ → ℕ → EventType → ℕ → Desk → Desk
notify_other none actor event post_id desk = desk
notify_other (some author) actor event post_id desk =
    if author == actor then desk else record desk {
      notices = record { user = author; event = event; post_id = post_id } ∷ desk.notices;
    }

-- The author hears of a decision of somebody else.
unfoldable pub notify_author : Post → ℕ → EventType → Desk → Desk
unfolding notify_other
notify_author post actor event desk = notify_other post.author actor event post.id desk

abbrev pub fresh_reminder : ℕ → Stage → ApprovalReminder
fresh_reminder post_id stage = record {
  post_id = post_id;
  stage = stage;
  reminder_count = 0;
  last_reminder_at = none;
  escalated = false;
}

abbrev pub is_for : ℕ → Stage → ApprovalReminder → Bool
is_for post_id stage r = r.post_id == post_id && same_stage r.stage stage

-- Writes the reminder of a post and a stage, which is one row at most: `update_or_create`.
unfoldable pub put_reminder : ApprovalReminder → List ApprovalReminder → List ApprovalReminder
put_reminder new [] = new ∷ []
put_reminder new (r ∷ rs) =
    let rest = put_reminder new rs in if is_for new.post_id new.stage r then new ∷ rs else r ∷ rest

unfoldable pub reset_reminder : ℕ → Stage → Desk → Desk
reset_reminder post_id stage desk = record desk {
  reminders = put_reminder (fresh_reminder post_id stage) desk.reminders;
}
