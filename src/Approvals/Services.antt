-- ===== src/Approvals/Services.antt =====
-- apps/approvals/services.py: the decisions on a post, or on one of its rows.
pub mod Effect
pub mod Decisions
pub mod Trail
pub mod Audit
use ai_social_brightbean_stu.Common.{
  ℕ, String, Bool, true, false, not, ◌&&◌, ◌||◌, Option, none, some, List, [], ◌∷◌, ◌++◌, map, ◌==◌,
  if◌then◌else◌, filter,
}
use ai_social_brightbean_stu.Composer.Status.{
  Status, draft, pending_review, pending_client, approved, changes_requested, rejected, on_hold,
  ◌is◌,
}
use ai_social_brightbean_stu.Composer.PlatformPost.{PlatformPost, Post}
use ai_social_brightbean_stu.Composer.Rows.{Rows}
use ai_social_brightbean_stu.Approvals.Turns.{
  Target, bundle, single, post_of, resolve_targets, Turn, move_one, approve_one, each_target,
}
use ai_social_brightbean_stu.Approvals.Desk.{
  ActionType, submission, approval, changes_request, rejection, resubmission, hold, ApprovalAction,
  review_stage, client_stage, post_submitted, post_approved, post_changes_requested, post_rejected,
  approval_hold_requested, EventType, Workspace, Desk, notify_reviewers, notify_clients,
  notify_author, reset_reminder,
}

-- One action for the whole post, or one for each row that moved.
unfoldable pub record_action :
    Target → ℕ → ActionType → Option String → Rows → List ApprovalAction → List ApprovalAction
record_action (bundle post) user action comment moved actions =
    record {
      post_id = post.id;
      platform_post = none;
      user = user;
      action = action;
      comment = comment;
    }
    ∷ actions
record_action (single post pp) user action comment moved actions =
    map
      (λ row. record {
        post_id = post.id;
        platform_post = some row.id;
        user = user;
        action = action;
        comment = comment;
      })
      moved
    ++ actions

decided : Target → ℕ → ActionType → Option String → (Desk → Bool → Desk) → Desk → Turn → Desk × Bool
unfolding record_action
decided target user action comment finish desk ([], rows, advanced) =
    (record desk { rows = rows }, false)
decided target user action comment finish desk (pp ∷ pps, rows, advanced) = (
  finish
      (record desk {
        rows = rows;
        actions = record_action target user action comment (pp ∷ pps) desk.actions;
      })
      advanced,
  true,
)

-- The shape of every decision: the loop in a transaction, nothing more if no row moved, else the
-- action and what the decision does after it. The Boolean is the truth of the value returned.
unfoldable pub decide :
    (PlatformPost → Rows → Turn)
    → (Status → Bool)
    → Target
    → ℕ
    → ActionType
    → Option String
    → (Desk → Bool → Desk)
    → Desk
    → Desk × Bool
unfolding decided
decide step eligible target user action comment finish desk =
    decided target user action comment finish desk
      (each_target step (resolve_targets eligible target desk.rows) desk.rows)

abbrev pub can_submit : Status → Bool
can_submit draft = true
can_submit changes_requested = true
can_submit rejected = true
can_submit _ = false

unfoldable pub submit_for_review : ℕ → Workspace → ℕ → Target → Desk → Desk × Bool
submit_for_review now workspace user target desk =
    decide (move_one now pending_review) can_submit target user submission none
      (λ after advanced.
        notify_reviewers workspace user post_submitted (post_of target).id
          (reset_reminder (post_of target).id review_stage after))
      desk

abbrev pub can_approve : Status → Bool
can_approve pending_review = true
can_approve pending_client = true
can_approve draft = true
can_approve rejected = true
can_approve changes_requested = true
can_approve _ = false

-- After an approval: the client's turn, or the news for the author.
unfoldable pub after_approval : Workspace → ℕ → Post → Desk → Bool → Desk
after_approval workspace user post after advanced =
    if advanced
    then notify_clients workspace post.id (reset_reminder post.id client_stage after)
    else notify_author post user post_approved after

unfoldable pub approve_post : ℕ → Workspace → ℕ → Option String → Target → Desk → Desk × Bool
approve_post now workspace user comment target desk =
    decide (approve_one now workspace.two_stage) can_approve target user approval comment
      (after_approval workspace user (post_of target)) desk

abbrev pub can_refuse : Status → Bool
can_refuse pending_review = true
can_refuse pending_client = true
can_refuse _ = false

-- The decisions below that take a comment raise without one; a blank comment is none.
unfoldable pub request_changes : ℕ → ℕ → Option String → Target → Desk → Option (Desk × Bool)
request_changes now user none target desk = none
request_changes now user (some comment) target desk = some (
    decide (move_one now changes_requested) can_refuse target user changes_request (some comment)
      (λ after advanced. notify_author (post_of target) user post_changes_requested after) desk)

unfoldable pub reject_post : ℕ → ℕ → Option String → Target → Desk → Option (Desk × Bool)
reject_post now user none target desk = none
reject_post now user (some comment) target desk = some (
    decide (move_one now rejected) can_refuse target user rejection (some comment)
      (λ after advanced. notify_author (post_of target) user post_rejected after) desk)

abbrev pub can_hold : Status → Bool
can_hold approved = true
can_hold _ = false

unfoldable pub request_hold :
    ℕ → Workspace → ℕ → Option String → Target → Desk → Option (Desk × Bool)
request_hold now workspace user none target desk = none
request_hold now workspace user (some comment) target desk = some (
    decide (move_one now on_hold) can_hold target user hold (some comment)
      (λ after advanced.
        notify_reviewers workspace user approval_hold_requested (post_of target).id after)
      desk)

abbrev pub can_resume : Status → Bool
can_resume on_hold = true
can_resume _ = false

unfoldable pub resume_hold : ℕ → ℕ → Target → Desk → Desk × Bool
resume_hold now user target desk =
    decide (move_one now approved) can_resume target user approval (some "Hold lifted.")
      (λ after advanced. after) desk

abbrev pub can_resubmit : Status → Bool
can_resubmit changes_requested = true
can_resubmit rejected = true
can_resubmit approved = true
can_resubmit _ = false

unfoldable pub resubmit_post : ℕ → Workspace → ℕ → Target → Desk → Desk × Bool
resubmit_post now workspace user target desk =
    decide (move_one now pending_review) can_resubmit target user resubmission none
      (λ after advanced.
        notify_reviewers workspace user post_submitted (post_of target).id
          (reset_reminder (post_of target).id review_stage after))
      desk
