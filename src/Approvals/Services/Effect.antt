-- ===== src/Approvals/Services/Effect.antt =====
-- What an approval does to the rows of a post.
use ai_social_brightbean_stu.Common.{ℕ, ◌≡◌, refl, String, Bool, Option, [], ◌∷◌}
use ai_social_brightbean_stu.Composer.Status.{Status}
use ai_social_brightbean_stu.Composer.PlatformPost.{PlatformPost}
use ai_social_brightbean_stu.Composer.Rows.{Rows}
use ai_social_brightbean_stu.Approvals.Desk.{ActionType, Desk}
use ai_social_brightbean_stu.Approvals.Turns.{Target, Turn, resolve_targets, each_target}
use ai_social_brightbean_stu.Approvals.Services.{decided, decide}

-- What follows a decision leaves the rows as the loop left them.
abbrev pub KeepsRows : (Desk → Bool → Desk) → Type 0
KeepsRows finish = (desk : Desk) (advanced : Bool) → (finish desk advanced).rows ≡ desk.rows

module _ (target : Target) (user : ℕ) (action : ActionType) (comment : Option String)
    (finish : Desk → Bool → Desk) (keeps : KeepsRows finish) (desk : Desk) where
  rows-decided :
      (moved rows : Rows) (advanced : Bool)
      → (decided target user action comment finish desk (moved, rows, advanced)).0.rows ≡ rows
  unfolding decided
  rows-decided [] rows advanced = refl
  rows-decided (pp ∷ pps) rows advanced = keeps _ advanced

  pub rows-decide :
      (step : PlatformPost → Rows → Turn) (eligible : Status → Bool)
      → (decide step eligible target user action comment finish desk).0.rows
        ≡ (each_target step (resolve_targets eligible target desk.rows) desk.rows).1
  unfolding decide
  rows-decide step eligible =
      let turn = each_target step (resolve_targets eligible target desk.rows) desk.rows in
      rows-decided turn.0 turn.1 turn.2
