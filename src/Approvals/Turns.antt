-- ===== src/Approvals/Turns.antt =====
-- The loop of every decision of apps/approvals/services.py: the targets, and the turn of each.
pub mod Loop
pub mod Moves
pub mod Still
use ai_social_brightbean_stu.Common.{
  ℕ, Bool, true, false, ◌&&◌, ◌||◌, Option, none, some, List, [], ◌∷◌, ◌++◌, ◌==◌, if◌then◌else◌,
  filter,
}
use ai_social_brightbean_stu.Composer.Status.{
  Status, pending_review, pending_client, approved, ◌is◌,
}
use ai_social_brightbean_stu.Composer.PlatformPost.{PlatformPost, Post, transition_to}
use ai_social_brightbean_stu.Composer.Rows.{Rows, update}

pub data Target : Type 0 where
  bundle : Post → Target
  single : Post → PlatformPost → Target

abbrev pub post_of : Target → Post
post_of (bundle post) = post
post_of (single post pp) = post

-- `_resolve_targets`; the filter on the status is for whole posts alone.
unfoldable pub resolve_targets : (Status → Bool) → Target → Rows → Rows
resolve_targets eligible (bundle post) rows =
    filter (λ row. row.post_id == post.id && eligible row.status) rows
resolve_targets eligible (single post pp) rows = pp ∷ []

-- `save(update_fields=[*TRANSITION_FIELDS, "updated_at"])` of the copy `pp`.
abbrev pub save_transition : ℕ → PlatformPost → PlatformPost → PlatformPost
save_transition now pp row = record row {
  status = pp.status;
  published_at = pp.published_at;
  platform_post_id = pp.platform_post_id;
  retry_count = pp.retry_count;
  next_retry_at = pp.next_retry_at;
  publish_error = pp.publish_error;
  updated_at = now;
}

save_moved : ℕ → ℕ → Rows → Option PlatformPost → Option (PlatformPost × Rows)
save_moved now key rows none = none
save_moved now key rows (some moved) =
    some (moved, update key (λ _. true) (save_transition now moved) rows)

-- `_transition_or_skip`: `none` where the row is skipped, else the copy and the table after it.
unfoldable pub transition_or_skip : ℕ → Status → PlatformPost → Rows → Option (PlatformPost × Rows)
unfolding save_moved
transition_or_skip now new pp rows =
    if pp.status is new
    then some (pp, rows)
    else save_moved now pp.id rows (transition_to now new pp)

-- What the turn of one target gives: the rows that moved, the table, and whether the row went on to
-- the client.
abbrev pub Turn : Type 0
Turn = Rows × Rows × Bool

moved_turn : Rows → Option (PlatformPost × Rows) → Turn
moved_turn rows none = ([], rows, false)
moved_turn rows (some (moved, after)) = (moved ∷ [], after, false)

unfoldable pub move_one : ℕ → Status → PlatformPost → Rows → Turn
unfolding moved_turn
move_one now new pp rows = moved_turn rows (transition_or_skip now new pp rows)

client_turn : PlatformPost → Rows → Option (PlatformPost × Rows) → Turn
client_turn pp rows none = (pp ∷ [], rows, false)
client_turn pp rows (some (moved, after)) = (moved ∷ [], after, true)

approved_turn : ℕ → Bool → Rows → Option (PlatformPost × Rows) → Turn
unfolding client_turn
approved_turn now to_client rows none = ([], rows, false)
approved_turn now to_client rows (some (pp, after)) =
    if to_client
    then client_turn pp after (transition_or_skip now pending_client pp after)
    else (pp ∷ [], after, false)

-- The body of the loop of `approve_post`.
unfoldable pub approve_one : ℕ → Bool → PlatformPost → Rows → Turn
unfolding approved_turn
approve_one now two_stage pp rows =
    approved_turn now (two_stage && pp.status is pending_review) rows
      (transition_or_skip now approved pp rows)

-- The loop over the targets.
unfoldable pub each_target : (PlatformPost → Rows → Turn) → Rows → Rows → Turn
each_target step [] rows = ([], rows, false)
each_target step (pp ∷ pps) rows =
    let (moved, after, advanced) = step pp rows in
    let (rest, last, more) = each_target step pps after in (moved ++ rest, last, advanced || more)
