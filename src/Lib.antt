-- ===== src/Lib.antt =====
-- BrightBean Studio: the core of a social media scheduler, as functions on explicit state.
--
-- A post (`Post`) has one row per social account (`PlatformPost`). A row moves through the editorial
-- workflow (apps/composer/models.py); the status of the post is derived from its rows
-- (apps/composer/status.py). The publish engine (apps/publisher/engine.py) polls the table: it takes
-- the due rows, claims those of one post under lock, sends each to its platform, and parks a failure
-- for a retry or fails it for good. A second sweep settles rows that a platform took asynchronously,
-- and a task posts the first comment under a post that is live. Before that, the approval services
-- move rows through review and to the client, and the queue of a channel gives rows their slots; both
-- write the same rows that the engine reads. The agent API counts them against a daily quota.
--
-- Common          tests, lists and sorting that the other modules share
-- Providers       Exceptions: providers/exceptions.py, a record with the attributes that handlers read
-- SocialAccounts  ErrorMessages: apps/social_accounts/error_messages.py, texts as constructors
-- Composer        Status: apps/composer/status.py; PlatformPost: apps/composer/models.py, with the
--                 transition table as a graph; Rows: the table, with lookups, updates and saves
-- Approvals       apps/approvals: Desk (models.py and the recipients of notices), Turns and Services
--                 (services.py: each decision is a loop over rows, then what follows it), Reminders
--                 (tasks.py)
-- Publisher       Store: what the engine keeps; RateLimit: apps/publisher/models.py; the others are
--                 parts of apps/publisher/engine.py: Failure (_fail_permanently, _schedule_retry),
--                 Publish (_publish_platform_post), Cycle (_get_due_platform_posts,
--                 _publish_post_group, _process_retries), Confirm (confirm_pending_publishes),
--                 PostType (_resolve_post_type), FirstComment (_post_first_comment_task)
-- Calendar        apps/calendar/services.py: Slots (_next_slot_datetimes, _next_available_slot), Queue
--                 (add_post_next_available, _write_slot), Removal (remove_from_queue), Reorder
--                 (reorder_queue), Priority (prioritize); Recurrence: apps/calendar/tasks.py
-- Mail            Budget: reserve_budget and BudgetedEmailBackend._allow of apps/common/mail.py
-- Members         apps/members: Roles (models.py, decorators.py), and of services.py Team
--                 (remove_member, update_member_org_role), Assignments
--                 (update_workspace_assignments), Invitations
-- ApiKeys         apps/api_keys/services.py: Tokens (parse_token), Keys (issue_api_key,
--                 update_api_key, revoke_api_key, verify_token)
-- Api             Limits: apps/api/limits.py, the daily quota of an account; Idempotency:
--                 apps/api/middleware.py and create of apps/api/routers/posts.py, a claim, the work
--                 under it and its end as separate steps
-- ClientPortal    Links: the magic links of apps/client_portal (services.py, models.py, decorators.py)
-- Inbox           Replies: the life of a reply, apps/inbox/services.py
-- Quota           Breaker: the quota breaker of apps/common/quota.py
-- Examples        concrete rows and runs
--
-- How it is modelled. An instant is a number of microseconds, the resolution of Python's datetime;
-- the functions of one call share one `now`. An exception is a value, and what a provider, a token
-- table or the log table answers is an input of the call, so that a statement holds for all answers.
-- A copy of a row that the code holds and the row in the table are two arguments, since a full save
-- writes the stale columns of the copy back. Loops are recursions on the list that is looped over,
-- and no fuel is needed; the sixty days of the slot search are a recursion on the number of days.
-- The time zone is a parameter: the date of an instant, and the datetime of a date and a time.
--
-- Not modelled: the contents of posts, media downloads and `platform_extra`; log texts and the cut of
-- messages at 2,000 characters; the thread pools, whose tasks touch one row each and are taken one
-- after another; failures of database writes other than the two of PublishLog; a failed cleanup of
-- the queue and a failed notification, which the code swallows.
pub mod Common
pub mod Providers
pub mod SocialAccounts
pub mod Composer
pub mod Approvals
pub mod Publisher
pub mod Calendar
pub mod Mail
pub mod Members
pub mod ApiKeys
pub mod Api
pub mod ClientPortal
pub mod Inbox
pub mod Quota
pub mod Examples
