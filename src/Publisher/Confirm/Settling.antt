-- ===== src/Publisher/Confirm/Settling.antt =====
-- How a row leaves `publishing` in the confirmation sweep, and when it does not.
use ai_social_brightbean_stu.Common.{
  ℕ, ◌≡◌, ◌⊎◌, inl, inr, refl, ap, ◌∙◌, String, Bool, true, false, Option, none, some, List, [],
  ◌∷◌, arith, Bool-cases,
}
use ai_social_brightbean_stu.SocialAccounts.ErrorMessages.{UserText}
use ai_social_brightbean_stu.Composer.Status.{Status, publishing, published, failed}
use ai_social_brightbean_stu.Composer.Status.Members.{is_refl}
use ai_social_brightbean_stu.Composer.PlatformPost.{PlatformPost}
use ai_social_brightbean_stu.Composer.Rows.{find}
use ai_social_brightbean_stu.Composer.Rows.Laws.{updated, IsKeyed, find-save_self, find-update_self}
use ai_social_brightbean_stu.Publisher.Store.{
  Store, Config, drop_queue_entry, sync_parent_published_at, maybe_schedule_first_comment,
  needs_comment, mark_pending,
}
use ai_social_brightbean_stu.Publisher.Failure.{fail_permanently, set_failed}
use ai_social_brightbean_stu.Publisher.Failure.Guard.{fail_permanently-IsSettled}
use ai_social_brightbean_stu.Publisher.Confirm.{
  complete, state_pending, state_failed, inbox, Answer, no_provider, synchronous, not_implemented,
  unreachable, reported, is_older, give_up, mark_confirmed_published, confirmed_copy,
  settle_confirmed, refusal, on_answer, on_handle, confirm_one_publish,
}

-- The row at `key` has the status `s`.
abbrev pub HasStatus : ℕ → Status → Store → Type 0
HasStatus key s db = (row : PlatformPost) × (find key db.rows ≡ some row) × (row.status ≡ s)

-- Queueing a first comment leaves the status of the row alone.
pub status-maybe_schedule :
    (config : Config) (pp : PlatformPost) (s : Status) (db : Store)
    → HasStatus pp.id s db
    → HasStatus pp.id s (maybe_schedule_first_comment config pp db)
unfolding maybe_schedule_first_comment
status-maybe_schedule config pp s db (row, found, status) =
    elim (Bool-cases (needs_comment config pp db)) [
      | inl h ↦ simp h (
        mark_pending row,
        find-update_self pp.id (λ _. true) mark_pending (λ r e. e) db.rows
            ∙ ap (updated (λ _. true) mark_pending) found,
        status,
      )
      | inr h ↦ simp h (row, found, status)
    ]

-- What one call can do to the row of `pp`.
abbrev pub Outcome : PlatformPost → Store → Answer → Store × Bool → Type 0
Outcome pp db answer (after, settled) =
    ((after ≡ db) × (settled ≡ false))
    ⊎ (HasStatus pp.id failed after × (settled ≡ true))
    ⊎ (HasStatus pp.id published after
        × (settled ≡ true)
        × (post_id : Option String) × (error : Option String) × (answer
            ≡ reported complete post_id error))

module _ (now : ℕ) (config : Config) (pp : PlatformPost) (db : Store) (keyed : IsKeyed db.rows)
    (found : find pp.id db.rows ≡ some pp) (busy : pp.status ≡ publishing) where
  failing : (message : UserText) → HasStatus pp.id failed (fail_permanently now pp message db)
  failing message =
      let settled = fail_permanently-IsSettled now pp message db keyed in
      (set_failed now message pp, ground (arith, settled.own_row, is_refl publishing), refl)

  settled :
      (copy : PlatformPost)
      → copy.id ≡ pp.id
      → find copy.id (settle_confirmed now copy db).rows ≡ some (record copy { updated_at = now })
  unfolding settle_confirmed sync_parent_published_at drop_queue_entry
  settled copy e = find-save_self now copy db.rows pp (rw e found)

  confirming :
      (handle : Option String)
      → HasStatus pp.id published (mark_confirmed_published now config pp handle db)
  unfolding mark_confirmed_published
  confirming handle =
      let copy = confirmed_copy now handle pp in
      status-maybe_schedule config copy published (settle_confirmed now copy db)
        (record copy { updated_at = now }, settled copy refl, refl)

  giving_up :
      (timeout : ℕ) (message : UserText) (answer : Answer)
      → Outcome pp db answer (give_up now timeout message pp db)
  unfolding give_up
  giving_up timeout message answer = elim (Bool-cases (is_older timeout now pp)) [
    | inl h ↦ rw h (inr (inl (failing message, refl)))
    | inr h ↦ rw h (inl (refl, refl))
  ]

  answered : (answer : Answer) → Outcome pp db answer (on_answer now config pp answer db)
  unfolding on_answer
  answered no_provider = inl (refl, refl)
  answered synchronous = giving_up _ _ synchronous
  answered not_implemented = giving_up _ _ not_implemented
  answered unreachable = giving_up _ _ unreachable
  answered (reported complete post_id error) = inr (inr (confirming _, refl, post_id, error, refl))
  answered (reported state_failed post_id error) = inr (inl (failing (refusal error), refl))
  answered (reported inbox post_id error) = inr (inl (failing (refusal error), refl))
  answered (reported state_pending post_id error) =
      giving_up _ _ (reported state_pending post_id error)

  handled :
      (handle : Option String) (answer : Answer)
      → Outcome pp db answer (on_handle handle now config pp answer db)
  unfolding on_handle
  handled none answer = giving_up _ _ answer
  handled (some handle) answer = answered answer

-- One call of the sweep leaves everything as it was and reports nothing settled, or fails the row,
-- or marks it published; the last only if the platform answered that the post is complete. It never
-- sends the row back to be published again.
pub confirm-Outcome :
    (now : ℕ) (config : Config) (pp : PlatformPost) (db : Store)
    → IsKeyed db.rows
    → find pp.id db.rows ≡ some pp
    → pp.status ≡ publishing
    → (answer : Answer) → Outcome pp db answer (confirm_one_publish now config pp answer db)
unfolding confirm_one_publish
confirm-Outcome now config pp db keyed found busy answer =
    handled now config pp db keyed found busy pp.platform_post_id answer

-- The sweep at each of these instants, while no client for the platform can be built.
pub sweeps : Config → PlatformPost → List ℕ → Store → Store
sweeps config pp [] db = db
sweeps config pp (now ∷ later) db =
    sweeps config pp later (confirm_one_publish now config pp no_provider db).0

no_client :
    (now : ℕ) (config : Config) (pp : PlatformPost) (handle : String) (db : Store)
    → pp.platform_post_id ≡ some handle
    → (confirm_one_publish now config pp no_provider db).0 ≡ db
unfolding confirm_one_publish on_handle on_answer
no_client now config pp handle db h = simp h refl

-- A row with a handle whose account's client cannot be built is never settled: no number of calls,
-- however late, changes anything.
pub stuck_without_provider :
    (config : Config) (pp : PlatformPost) (handle : String) (times : List ℕ) (db : Store)
    → pp.platform_post_id ≡ some handle
    → sweeps config pp times db ≡ db
unfolding sweeps
stuck_without_provider config pp handle [] db h = refl
stuck_without_provider config pp handle (now ∷ later) db h =
    rw (no_client now config pp handle db h) (stuck_without_provider config pp handle later db h)
