-- ===== src/Approvals/Services/Audit.antt =====
-- What a decision writes in the audit trail.
use ai_social_brightbean_stu.Common.{
  ℕ, ◌≡◌, refl, String, Bool, true, Option, none, some, [], ◌∷◌, arith,
}
use ai_social_brightbean_stu.Composer.Status.{Status}
use ai_social_brightbean_stu.Composer.PlatformPost.{PlatformPost, Post}
use ai_social_brightbean_stu.Composer.Rows.{Rows}
use ai_social_brightbean_stu.Approvals.Desk.{
  ActionType, submission, approval, changes_request, rejection, resubmission, hold, ApprovalAction,
  review_stage, EventType, Workspace, Desk, notify_reviewers, notify_clients, notify_author,
  reset_reminder,
}
use ai_social_brightbean_stu.Approvals.Turns.{bundle, Turn, resolve_targets, each_target}
use ai_social_brightbean_stu.Approvals.Services.{
  record_action, decided, decide, submit_for_review, after_approval, approve_post, request_changes,
  reject_post, request_hold, resume_hold, resubmit_post,
}

-- The action of a decision on the whole post.
abbrev pub bundled : ℕ → ℕ → ActionType → Option String → ApprovalAction
bundled post_id user action comment = record {
  post_id = post_id;
  platform_post = none;
  user = user;
  action = action;
  comment = comment;
}

-- A decision that moved a row has put this action, and no other, in front of the trail.
abbrev pub Records : ApprovalAction → Desk → Option (Desk × Bool) → Type 0
Records action desk result =
    (after : Desk) → result ≡ some (after, true) → after.actions ≡ action ∷ desk.actions

abbrev KeepsActions : (Desk → Bool → Desk) → Type 0
KeepsActions finish =
    (desk : Desk) (advanced : Bool) → (finish desk advanced).actions ≡ desk.actions

module _ (post : Post) (user : ℕ) (action : ActionType) (comment : Option String)
    (finish : Desk → Bool → Desk) (keeps : KeepsActions finish) (desk : Desk) where
  decided-Records :
      (moved rows : Rows) (advanced : Bool)
      → Records
          (bundled post.id user action comment)
          desk
          (some (decided (bundle post) user action comment finish desk (moved, rows, advanced)))
  unfolding decided record_action
  decided-Records [] rows advanced after h = ground arith
  decided-Records (pp ∷ pps) rows advanced after h = ground (
    arith,
    h,
    keeps
        (record desk { rows = rows; actions = bundled post.id user action comment ∷ desk.actions })
        advanced,
  )

  decide-Records :
      (step : PlatformPost → Rows → Turn) (eligible : Status → Bool)
      → Records
          (bundled post.id user action comment)
          desk
          (some (decide step eligible (bundle post) user action comment finish desk))
  unfolding decide
  decide-Records step eligible =
      let turn = each_target step (resolve_targets eligible (bundle post) desk.rows) desk.rows in
      decided-Records turn.0 turn.1 turn.2

keeps_same : KeepsActions (λ after advanced. after)
keeps_same desk advanced = refl

keeps_author :
    (post : Post) (user : ℕ) (event : EventType)
    → KeepsActions (λ after advanced. notify_author post user event after)
unfolding notify_author
keeps_author post user event desk advanced = ground arith

keeps_reviewers :
    (workspace : Workspace) (user : ℕ) (event : EventType) (post : ℕ)
    → KeepsActions (λ after advanced. notify_reviewers workspace user event post after)
unfolding notify_reviewers
keeps_reviewers workspace user event post desk advanced = refl

keeps_review :
    (workspace : Workspace) (user : ℕ) (event : EventType) (post : ℕ)
    → KeepsActions (λ after advanced.
      notify_reviewers workspace user event post (reset_reminder post review_stage after))
unfolding notify_reviewers reset_reminder
keeps_review workspace user event post desk advanced = refl

after_approval-KeepsActions :
    (workspace : Workspace) (user : ℕ) (post : Post)
    → KeepsActions (after_approval workspace user post)
unfolding after_approval notify_clients notify_author reset_reminder
after_approval-KeepsActions workspace user post desk advanced = ground arith

-- A decision on a whole post that moved a row adds one action to the audit trail, for the whole post,
-- with its user, its kind and its comment, and takes none away.
pub action_recorded :
    (now : ℕ) (workspace : Workspace) (user : ℕ) (comment : Option String) (text : String)
    (post : Post) (desk : Desk)
    → Records
        (bundled post.id user submission none)
        desk
        (some (submit_for_review now workspace user (bundle post) desk))
      × Records
          (bundled post.id user approval comment)
          desk
          (some (approve_post now workspace user comment (bundle post) desk))
      × Records
          (bundled post.id user changes_request (some text))
          desk
          (request_changes now user (some text) (bundle post) desk)
      × Records
          (bundled post.id user rejection (some text))
          desk
          (reject_post now user (some text) (bundle post) desk)
      × Records
          (bundled post.id user hold (some text))
          desk
          (request_hold now workspace user (some text) (bundle post) desk)
      × Records
          (bundled post.id user approval (some "Hold lifted."))
          desk
          (some (resume_hold now user (bundle post) desk))
      × Records
          (bundled post.id user resubmission none)
          desk
          (some (resubmit_post now workspace user (bundle post) desk))
unfolding submit_for_review approve_post request_changes reject_post request_hold resume_hold
    resubmit_post
action_recorded now workspace user comment text post desk = (
  decide-Records post user submission none _ (keeps_review workspace user _ post.id) desk _ _,
  decide-Records post user approval comment _ (after_approval-KeepsActions workspace user post) desk
      _ _,
  decide-Records post user changes_request (some text) _ (keeps_author post user _) desk _ _,
  decide-Records post user rejection (some text) _ (keeps_author post user _) desk _ _,
  decide-Records post user hold (some text) _ (keeps_reviewers workspace user _ post.id) desk _ _,
  decide-Records post user approval (some "Hold lifted.") _ keeps_same desk _ _,
  decide-Records post user resubmission none _ (keeps_review workspace user _ post.id) desk _ _,
)
