-- ===== src/Approvals/Reminders.antt =====
-- apps/approvals/tasks.py: the hourly check of posts that wait in a stage of the approval.
pub mod Budget
pub mod Frame
use ai_social_brightbean_stu.Common.{
  ℕ, ◌+◌, ◌*◌, Bool, true, false, not, ◌&&◌, ◌||◌, Option, none, some, List, [], ◌∷◌, ltb, leb,
  ◌==◌, if◌then◌else◌, any, filter,
}
use ai_social_brightbean_stu.Providers.Exceptions.{second}
use ai_social_brightbean_stu.Composer.Status.{Status, pending_review, pending_client, ◌is◌}
use ai_social_brightbean_stu.Composer.PlatformPost.{PlatformPost, Post}
use ai_social_brightbean_stu.Composer.Rows.{Rows}
use ai_social_brightbean_stu.Approvals.Desk.{
  Stage, review_stage, client_stage, ApprovalReminder, fresh_reminder, is_for, put_reminder,
  approval_reminder, approval_stalled, Member, Workspace, Desk, notify_members,
}

-- `MAX_REMINDERS`
abbrev pub max_reminders : ℕ
max_reminders = 2

-- `PENDING_REVIEW_HOURS` and `PENDING_CLIENT_HOURS`
abbrev pub threshold : Stage → ℕ
threshold review_stage = 24 * 3600 * second
threshold client_stage = 48 * 3600 * second

abbrev pub stage_status : Stage → Status
stage_status review_stage = pending_review
stage_status client_stage = pending_client

-- The query of `_process_stage` on one post.
unfoldable pub is_stalled : ℕ → Stage → Rows → Post → Bool
is_stalled now stage rows post =
    any (λ row. row.post_id == post.id && row.status is stage_status stage) rows
    && leb (post.updated_at + threshold stage) now

-- What the check of one post does.
pub data Verdict : Type 0 where
  nothing remind escalate : Verdict

cooling : ℕ → ℕ → Option ℕ → Bool
cooling now span none = false
cooling now span (some last) = ltb now (last + span)

-- The body of the loop of `_process_stage`, on the reminder of the post.
unfoldable pub check_reminder : ℕ → ℕ → ApprovalReminder → ApprovalReminder × Verdict
unfolding cooling
check_reminder now span r =
    if leb max_reminders r.reminder_count
    then (if r.escalated then (r, nothing) else (record r { escalated = true }, escalate))
    else if cooling now span r.last_reminder_at
    then (r, nothing)
    else (record r { reminder_count = r.reminder_count + 1; last_reminder_at = some now }, remind)

-- `get_or_create`
unfoldable pub get_reminder : ℕ → Stage → List ApprovalReminder → ApprovalReminder
get_reminder post_id stage [] = fresh_reminder post_id stage
get_reminder post_id stage (r ∷ rs) =
    let rest = get_reminder post_id stage rs in if is_for post_id stage r then r else rest

abbrev awaited : Stage → Member → Bool
awaited review_stage m = m.approve_posts
awaited client_stage m = m.is_client

-- `_remind_reviewers`, `_remind_clients` and `_escalate`
unfoldable pub announce : Workspace → Stage → ℕ → Verdict → Desk → Desk
announce workspace stage post_id nothing desk = desk
announce workspace stage post_id remind desk =
    notify_members workspace (awaited stage) approval_reminder post_id desk
announce workspace stage post_id escalate desk =
    notify_members workspace (λ m. m.is_manager) approval_stalled post_id desk

unfoldable pub process_post : ℕ → (ℕ → Workspace) → Stage → Post → Desk → Desk
process_post now workspaces stage post desk =
    let (r, verdict) =
      check_reminder now (threshold stage) (get_reminder post.id stage desk.reminders) in
    announce (workspaces post.workspace) stage post.id verdict
      (record desk { reminders = put_reminder r desk.reminders })

process_each : ℕ → (ℕ → Workspace) → Stage → List Post → Desk → Desk
process_each now workspaces stage [] desk = desk
process_each now workspaces stage (post ∷ posts) desk =
    process_each now workspaces stage posts (process_post now workspaces stage post desk)

-- `_process_stage`
unfoldable pub process_stage : ℕ → (ℕ → Workspace) → Stage → Desk → Desk
unfolding process_each
process_stage now workspaces stage desk =
    process_each now workspaces stage (filter (is_stalled now stage desk.rows) desk.posts) desk

-- `check_approval_reminders`
unfoldable pub check_approval_reminders : ℕ → (ℕ → Workspace) → Desk → Desk
check_approval_reminders now workspaces desk =
    process_stage now workspaces client_stage (process_stage now workspaces review_stage desk)
