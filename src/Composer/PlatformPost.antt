-- ===== src/Composer/PlatformPost.antt =====
-- `Post` and `PlatformPost` of apps/composer/models.py: the columns that the workflow, the queue
-- and the publisher read or write, the transition table, and `transition_to`.
pub mod Graph
pub mod Transition
use ai_social_brightbean_stu.Common.{
  ℕ, String, Bool, true, false, ◌&&◌, ◌||◌, not, Option, none, some, List, [], ◌∷◌, if◌then◌else◌,
  ◌==◌, or_else,
}
use ai_social_brightbean_stu.SocialAccounts.ErrorMessages.{UserText}
use ai_social_brightbean_stu.Composer.Status.{
  Status, draft, pending_review, pending_client, approved, changes_requested, rejected, scheduled,
  publishing, published, failed, on_hold, has, ◌is◌,
}

-- `none_requested` is the column's value "none".
pub data FirstCommentStatus : Type 0 where
  none_requested pending posted comment_failed : FirstCommentStatus

-- An empty text column (`publish_error`, `platform_post_id`, `first_comment_id`) is `none`.
pub record PlatformPost : Type 0 where
  pub id : ℕ
  pub post_id : ℕ
  pub social_account : ℕ
  pub status : Status
  pub platform_post_id : Option String
  pub publish_error : Option UserText
  pub published_at : Option ℕ
  pub first_comment_override : Option (Option String)
  pub first_comment_status : FirstCommentStatus
  pub first_comment_id : Option String
  pub first_comment_error : Option UserText
  pub first_comment_retry_count : ℕ
  pub first_comment_posted_at : Option ℕ
  pub scheduled_at : Option ℕ
  pub retry_count : ℕ
  pub next_retry_at : Option ℕ
  pub updated_at : ℕ

pub record Post : Type 0 where
  pub id : ℕ
  pub workspace : ℕ
  pub author : Option ℕ
  pub first_comment : Option String
  pub scheduled_at : Option ℕ
  pub proposed_publish_at : Option ℕ
  pub published_at : Option ℕ
  pub updated_at : ℕ

-- `VALID_TRANSITIONS`
unfoldable pub valid_transitions : Status → List Status
valid_transitions draft = pending_review ∷ scheduled ∷ publishing ∷ []
valid_transitions pending_review = approved ∷ changes_requested ∷ rejected ∷ []
valid_transitions approved =
    pending_client ∷ scheduled ∷ publishing ∷ draft ∷ on_hold ∷ pending_review ∷ []
valid_transitions pending_client = approved ∷ changes_requested ∷ rejected ∷ []
valid_transitions changes_requested = pending_review ∷ draft ∷ []
valid_transitions rejected = draft ∷ pending_review ∷ []
valid_transitions scheduled = publishing ∷ draft ∷ []
valid_transitions publishing = published ∷ failed ∷ scheduled ∷ []
valid_transitions failed = publishing ∷ draft ∷ scheduled ∷ []
valid_transitions on_hold = approved ∷ draft ∷ changes_requested ∷ []
valid_transitions published = []

-- `PROTECTED_STATUSES`
unfoldable pub is_protected : Status → Bool
is_protected published = true
is_protected publishing = true
is_protected _ = false

-- `RESCHEDULABLE_STATUSES`
unfoldable pub is_reschedulable : Status → Bool
is_reschedulable draft = true
is_reschedulable approved = true
is_reschedulable scheduled = true
is_reschedulable failed = true
is_reschedulable pending_review = true
is_reschedulable pending_client = true
is_reschedulable _ = false

unfoldable pub is_editable : Status → Bool
is_editable draft = true
is_editable changes_requested = true
is_editable rejected = true
is_editable approved = true
is_editable scheduled = true
is_editable _ = false

unfoldable pub can_transition : Status → Status → Bool
unfolding valid_transitions
can_transition old new = has (valid_transitions old) new

-- The writes of `transition_to` that depend on the new status.
unfoldable pub settle_transition : ℕ → Status → PlatformPost → PlatformPost
settle_transition now published pp = record pp { status = published; published_at = some now }
settle_transition now scheduled pp = record pp {
  status = scheduled;
  retry_count = 0;
  next_retry_at = none;
  publish_error = none;
  platform_post_id = none;
}
settle_transition now new pp = record pp { status = new }

-- `none` is the `ValueError`.
unfoldable pub transition_to : ℕ → Status → PlatformPost → Option PlatformPost
transition_to now new pp =
    if can_transition pp.status new then some (settle_transition now new pp) else none

-- The text of the first comment that will be posted; an override that is empty means none.
unfoldable pub effective_first_comment : PlatformPost → Post → Option String
effective_first_comment pp post = elim pp.first_comment_override [
  | none ↦ post.first_comment
  | some own ↦ own
]

-- `Coalesce("scheduled_at", "post__scheduled_at")`
unfoldable pub effective_at : PlatformPost → Post → Option ℕ
effective_at pp post = or_else pp.scheduled_at post.scheduled_at
