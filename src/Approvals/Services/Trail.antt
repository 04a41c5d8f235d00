-- ===== src/Approvals/Services/Trail.antt =====
-- When a decision writes nothing at all.
use ai_social_brightbean_stu.Common.{
  ℕ, ◌≡◌, refl, ap, String, Bool, false, Option, none, some, [], ◌∷◌, arith,
}
use ai_social_brightbean_stu.Composer.Status.{
  Status, pending_review, approved, changes_requested, rejected, on_hold,
}
use ai_social_brightbean_stu.Composer.PlatformPost.{PlatformPost}
use ai_social_brightbean_stu.Composer.Rows.{Rows}
use ai_social_brightbean_stu.Approvals.Desk.{ActionType, Workspace, Desk}
use ai_social_brightbean_stu.Approvals.Turns.{Target, Turn, resolve_targets, each_target}
use ai_social_brightbean_stu.Approvals.Turns.Loop.{Quiet, each_target-Quiet}
use ai_social_brightbean_stu.Approvals.Turns.Still.{move_one-Quiet, approve_one-Quiet}
use ai_social_brightbean_stu.Approvals.Services.{
  decided, decide, submit_for_review, approve_post, request_changes, reject_post, request_hold,
  resume_hold, resubmit_post,
}

module _ (target : Target) (user : ℕ) (action : ActionType) (comment : Option String)
    (finish : Desk → Bool → Desk) (desk : Desk) where
  decided_nothing :
      (moved rows : Rows) (advanced : Bool)
      → (moved ≡ [] → rows ≡ desk.rows)
      → (decided target user action comment finish desk (moved, rows, advanced)).1 ≡ false
      → (decided target user action comment finish desk (moved, rows, advanced)).0 ≡ desk
  unfolding decided
  decided_nothing [] rows advanced quiet h = ap (λ rs. record desk { rows = rs }) (quiet refl)
  decided_nothing (pp ∷ pps) rows advanced quiet h = ground arith

  decide_nothing :
      (step : PlatformPost → Rows → Turn) (eligible : Status → Bool)
      → Quiet step
      → (decide step eligible target user action comment finish desk).1 ≡ false
      → (decide step eligible target user action comment finish desk).0 ≡ desk
  unfolding decide
  decide_nothing step eligible quiet h =
      let turn = each_target step (resolve_targets eligible target desk.rows) desk.rows in
      decided_nothing turn.0 turn.1 turn.2
        (each_target-Quiet step quiet (resolve_targets eligible target desk.rows) desk.rows) h

-- A result that says that nothing moved comes with the state as it was before.
abbrev pub LeavesNoTrace : Desk → Option (Desk × Bool) → Type 0
LeavesNoTrace desk result = (after : Desk) → result ≡ some (after, false) → after ≡ desk

some_nothing :
    (desk : Desk) (r : Desk × Bool) → (r.1 ≡ false → r.0 ≡ desk) → LeavesNoTrace desk (some r)
some_nothing desk (d, b) h after e = ground arith

changes_nothing :
    (now user : ℕ) (comment : Option String) (target : Target) (desk : Desk)
    → LeavesNoTrace desk (request_changes now user comment target desk)
unfolding request_changes
changes_nothing now user none target desk = λ after e. ground arith
changes_nothing now user (some comment) target desk =
    some_nothing desk _
      (decide_nothing target user _ _ _ desk _ _ (move_one-Quiet now changes_requested))

reject_nothing :
    (now user : ℕ) (comment : Option String) (target : Target) (desk : Desk)
    → LeavesNoTrace desk (reject_post now user comment target desk)
unfolding reject_post
reject_nothing now user none target desk = λ after e. ground arith
reject_nothing now user (some comment) target desk =
    some_nothing desk _ (decide_nothing target user _ _ _ desk _ _ (move_one-Quiet now rejected))

hold_nothing :
    (now : ℕ) (workspace : Workspace) (user : ℕ) (comment : Option String) (target : Target)
    (desk : Desk)
    → LeavesNoTrace desk (request_hold now workspace user comment target desk)
unfolding request_hold
hold_nothing now workspace user none target desk = λ after e. ground arith
hold_nothing now workspace user (some comment) target desk =
    some_nothing desk _ (decide_nothing target user _ _ _ desk _ _ (move_one-Quiet now on_hold))

-- A decision in which no row moved leaves no trace: no row, action, reminder or notification is
-- written, whichever the decision and whether it was on the whole post or on one row.
pub nothing_moved :
    (now : ℕ) (workspace : Workspace) (user : ℕ) (comment : Option String) (target : Target)
    (desk : Desk)
    → LeavesNoTrace desk (some (submit_for_review now workspace user target desk))
      × LeavesNoTrace desk (some (approve_post now workspace user comment target desk))
      × LeavesNoTrace desk (request_changes now user comment target desk)
      × LeavesNoTrace desk (reject_post now user comment target desk)
      × LeavesNoTrace desk (request_hold now workspace user comment target desk)
      × LeavesNoTrace desk (some (resume_hold now user target desk))
      × LeavesNoTrace desk (some (resubmit_post now workspace user target desk))
unfolding submit_for_review approve_post resume_hold resubmit_post
nothing_moved now workspace user comment target desk = (
  some_nothing desk _
      (decide_nothing target user _ _ _ desk _ _ (move_one-Quiet now pending_review)),
  some_nothing desk _
      (decide_nothing target user _ _ _ desk _ _ (approve_one-Quiet now workspace.two_stage)),
  changes_nothing now user comment target desk,
  reject_nothing now user comment target desk,
  hold_nothing now workspace user comment target desk,
  some_nothing desk _ (decide_nothing target user _ _ _ desk _ _ (move_one-Quiet now approved)),
  some_nothing desk _
      (decide_nothing target user _ _ _ desk _ _ (move_one-Quiet now pending_review)),
)
