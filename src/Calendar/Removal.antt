-- ===== src/Calendar/Removal.antt =====
-- `remove_from_queue` of apps/calendar/services.py, with the branch for drafts of
-- `transition_platform_post` in apps/composer/services.py.
pub mod Effect
use ai_social_brightbean_stu.Common.{
  ℕ, Bool, true, false, not, ◌&&◌, Option, none, some, List, [], ◌∷◌, ◌==◌, if◌then◌else◌, filter,
}
use ai_social_brightbean_stu.Composer.Status.{draft}
use ai_social_brightbean_stu.Composer.PlatformPost.{
  PlatformPost, is_protected, can_transition, transition_to,
}
use ai_social_brightbean_stu.Composer.Rows.{update}
use ai_social_brightbean_stu.Calendar.Queue.{
  QueueEntry, Channel, platform_post_for, sync_post_scheduled_at,
}

-- The columns that are saved of a drafted copy; the schedule is cleared.
abbrev pub save_draft : ℕ → PlatformPost → PlatformPost → PlatformPost
save_draft now pp row = record row {
  status = pp.status;
  published_at = pp.published_at;
  platform_post_id = pp.platform_post_id;
  retry_count = pp.retry_count;
  next_retry_at = pp.next_retry_at;
  publish_error = pp.publish_error;
  scheduled_at = none;
  updated_at = now;
}

drafted : ℕ → Option PlatformPost → Channel → Channel
drafted now none c = c
drafted now (some pp) c = sync_post_scheduled_at now pp.post_id (record c {
  entries = filter (λ e. not (e.post_id == pp.post_id)) c.entries;
  rows = update pp.id (λ row. true) (save_draft now pp) c.rows;
})

-- `transition_platform_post` to `draft`; the entries of the channel are those of the one queue.
unfoldable pub transition_to_draft : ℕ → PlatformPost → Channel → Channel
unfolding drafted
transition_to_draft now pp c = drafted now (transition_to now draft pp) c

-- Whether the row's schedule is cleared.
unfoldable pub is_withdrawable : PlatformPost → Bool
is_withdrawable pp = not (is_protected pp.status) && can_transition pp.status draft

withdraw : ℕ → Option PlatformPost → Channel → Channel
withdraw now none c = c
withdraw now (some pp) c = if is_withdrawable pp then transition_to_draft now pp c else c

unfoldable pub delete_entry : ℕ → Channel → Channel
delete_entry key c = record c { entries = filter (λ e. not (e.id == key)) c.entries }

-- `remove_from_queue`
unfoldable pub remove_from_queue : ℕ → QueueEntry → Channel → Channel
unfolding withdraw
remove_from_queue now entry c = sync_post_scheduled_at now entry.post_id (
    delete_entry entry.id
      (withdraw now (platform_post_for c.social_account entry.post_id c.rows) c))
