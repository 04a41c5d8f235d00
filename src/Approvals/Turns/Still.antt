-- ===== src/Approvals/Turns/Still.antt =====
-- A turn that moves nothing leaves the table as it is.
use ai_social_brightbean_stu.Common.{
  ◌≡◌, ◌≢◌, refl, Bool, true, false, Option, none, some, [], ℕ, arith,
}
use ai_social_brightbean_stu.Composer.Status.{Status}
use ai_social_brightbean_stu.Composer.PlatformPost.{PlatformPost}
use ai_social_brightbean_stu.Composer.Rows.{Rows}
use ai_social_brightbean_stu.Approvals.Turns.{
  transition_or_skip, moved_turn, move_one, client_turn, approved_turn, approve_one,
}
use ai_social_brightbean_stu.Approvals.Turns.Loop.{Quiet}

client_turn_moves :
    (pp : PlatformPost) (rows : Rows) (o : Option (PlatformPost × Rows))
    → (client_turn pp rows o).0 ≢ []
unfolding client_turn
client_turn_moves pp rows none e = ground arith
client_turn_moves pp rows (some x) e = ground arith

approved_turn_quiet :
    (now : ℕ) (to_client : Bool) (rows : Rows) (o : Option (PlatformPost × Rows))
    → (approved_turn now to_client rows o).0 ≡ []
    → (approved_turn now to_client rows o).1 ≡ rows
unfolding approved_turn
approved_turn_quiet now to_client rows none h = refl
approved_turn_quiet now true rows (some (pp, after)) h = absurd (client_turn_moves pp after _ h)
approved_turn_quiet now false rows (some (pp, after)) h = ground arith

pub approve_one-Quiet : (now : ℕ) (two_stage : Bool) → Quiet (approve_one now two_stage)
unfolding approve_one approved_turn client_turn
approve_one-Quiet now two_stage pp rows h = approved_turn_quiet now _ rows _ h

pub move_one-Quiet : (now : ℕ) (new : Status) → Quiet (move_one now new)
unfolding move_one moved_turn
move_one-Quiet now new pp rows h =
    elim (transition_or_skip now new pp rows)
        as (λ o. (moved_turn rows o).0 ≡ [] → (moved_turn rows o).1 ≡ rows) [
          | none ↦ λ e. refl
          | some x ↦ λ e. ground arith
        ]
      h
