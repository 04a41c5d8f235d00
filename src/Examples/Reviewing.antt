-- ===== src/Examples/Reviewing.antt =====
-- The approval services on a post with one row under review and one with the client.
use ai_social_brightbean_stu.Common.{IsSpaced, ℕ, ◌≡◌, ◌≤◌, true, false, none, List, [], ◌∷◌}
use ai_social_brightbean_stu.Composer.Status.{pending_review, pending_client}
use ai_social_brightbean_stu.Composer.PlatformPost.{PlatformPost}
use ai_social_brightbean_stu.Approvals.Desk.{review_stage, fresh_reminder, Workspace, Desk}
use ai_social_brightbean_stu.Approvals.Reminders.{max_reminders}
use ai_social_brightbean_stu.Approvals.Reminders.Budget.{
  sent, escalations, count, reminders_bounded,
}
use ai_social_brightbean_stu.Examples.Data.{new_row, announcement}

abbrev reviewed : PlatformPost
reviewed = new_row 1 7 pending_review

abbrev at_client : PlatformPost
at_client = new_row 2 7 pending_client

abbrev office : Workspace
office = record {
  two_stage = true;
  members =
      record { user = 11; approve_posts = true; is_client = false; is_manager = true }
      ∷ record { user = 12; approve_posts = false; is_client = true; is_manager = false }
      ∷ [];
}

abbrev desk : Desk
desk = record {
  rows = reviewed ∷ at_client ∷ [];
  posts = announcement 7 ∷ [];
  actions = [];
  reminders = [];
  notices = [];
}

abbrev forwarded : PlatformPost
forwarded = record reviewed { status = pending_client; updated_at = 500 }

abbrev checked_at : List ℕ
checked_at = 0 ∷ 50 ∷ 100 ∷ 250 ∷ 400 ∷ []

reminders_bounded_example :
    (count (sent 100 checked_at (fresh_reminder 7 review_stage)) ≤ max_reminders)
    × IsSpaced 100 none (sent 100 checked_at (fresh_reminder 7 review_stage))
    × (escalations 100 checked_at (fresh_reminder 7 review_stage) ≤ 1)
    × (1 ≤ escalations 100 checked_at (fresh_reminder 7 review_stage)
        → count (sent 100 checked_at (fresh_reminder 7 review_stage)) ≡ max_reminders)
reminders_bounded_example = reminders_bounded 100 7 review_stage checked_at
