-- ===== src/Calendar/Removal/Effect.antt =====
-- What a removal from the queue does to the row, to the others, and to the entries.
use ai_social_brightbean_stu.Common.{
  ℕ, ◌≡◌, ◌≢◌, refl, ap, ◌∙◌, true, not, ◌&&◌, none, some, List, [], ◌∷◌, arith, ◌==◌,
  if◌then◌else◌, All, filter, Bool-cases, inl, inr,
}
use ai_social_brightbean_stu.Composer.Status.{draft}
use ai_social_brightbean_stu.Composer.PlatformPost.{
  PlatformPost, is_protected, can_transition, transition_to, settle_transition,
}
use ai_social_brightbean_stu.Composer.Rows.{find, update}
use ai_social_brightbean_stu.Composer.Rows.Laws.{updated, find-update_self, find-update_ne}
use ai_social_brightbean_stu.Calendar.Queue.{
  QueueEntry, Channel, platform_post_for, sync_post_scheduled_at,
}
use ai_social_brightbean_stu.Calendar.Removal.{
  save_draft, drafted, transition_to_draft, is_withdrawable, withdraw, delete_entry,
  remove_from_queue,
}

-- The row once it is withdrawn.
abbrev pub withdrawn : ℕ → PlatformPost → PlatformPost
withdrawn now pp = record pp { status = draft; scheduled_at = none; updated_at = now }

rows-transition_to_draft :
    (now : ℕ) (pp : PlatformPost) (c : Channel)
    → is_withdrawable pp ≡ true
    → (transition_to_draft now pp c).rows
      ≡ update pp.id (λ row. true) (save_draft now (record pp { status = draft })) c.rows
unfolding transition_to_draft transition_to settle_transition drafted is_withdrawable
    sync_post_scheduled_at
rows-transition_to_draft now pp c w = ground arith

rows-remove_from_queue :
    (now : ℕ) (entry : QueueEntry) (c : Channel) (pp : PlatformPost)
    → platform_post_for c.social_account entry.post_id c.rows ≡ some pp
    → (remove_from_queue now entry c).rows
      ≡ (if is_withdrawable pp then (transition_to_draft now pp c).rows else c.rows)
unfolding remove_from_queue withdraw delete_entry sync_post_scheduled_at
rows-remove_from_queue now entry c pp child = simp child (ground arith)

none_left :
    (key : ℕ) (es : List QueueEntry) → All (λ e. e.id ≢ key) (filter (λ e. not (e.id == key)) es)
none_left key [] = tt
none_left key (e ∷ es) = elim (Bool-cases (e.id == key)) [
  | inl h ↦ simp h (none_left key es)
  | inr h ↦ simp h ((λ q. ground (arith, q)), none_left key es)
]

entries-remove_from_queue :
    (now : ℕ) (entry : QueueEntry) (c : Channel)
    → All (λ e. e.id ≢ entry.id) (remove_from_queue now entry c).entries
unfolding remove_from_queue delete_entry sync_post_scheduled_at
entries-remove_from_queue now entry c = none_left entry.id _

-- The row that is left, by the test that the code makes.
settled_row :
    (now : ℕ) (pp : PlatformPost)
    → (if is_withdrawable pp then withdrawn now pp else pp) ≡ (
        if not (is_protected pp.status) && can_transition pp.status draft
        then withdrawn now pp
        else pp)
unfolding is_withdrawable
settled_row now pp = refl

-- Removing an entry deletes it, and leaves the row of its post a draft without a schedule, if the
-- transition table lets the row become a draft; otherwise the row keeps its status and its time, as
-- one under review does. No other row is touched.
pub remove_from_queue_effect :
    (now : ℕ) (entry : QueueEntry) (c : Channel) (pp : PlatformPost)
    → platform_post_for c.social_account entry.post_id c.rows ≡ some pp
    → find pp.id c.rows ≡ some pp
    → All (λ e. e.id ≢ entry.id) (remove_from_queue now entry c).entries
      × (find pp.id (remove_from_queue now entry c).rows
          ≡ some (
              if not (is_protected pp.status) && can_transition pp.status draft
              then withdrawn now pp
              else pp))
      × ((other : ℕ)
          → other ≢ pp.id
          → find other (remove_from_queue now entry c).rows ≡ find other c.rows)
remove_from_queue_effect now entry c pp child found =
    let rows = rows-remove_from_queue now entry c pp child in
    elim (Bool-cases (is_withdrawable pp)) [
      | inl w ↦
          let moved = rows ∙ (rw w (rows-transition_to_draft now pp c w)) in
          (
            entries-remove_from_queue now entry c,
            ap (find pp.id) moved
                ∙ (find-update_self pp.id (λ row. true)
                      (save_draft now (record pp { status = draft })) (λ r e. e) c.rows
                    ∙ (ap (updated (λ row. true) (save_draft now (record pp { status = draft })))
                          found
                        ∙ ap some (rw w refl ∙ settled_row now pp))),
            λ other n.
                ap (find other) moved
                ∙ find-update_ne pp.id (λ row. true) (save_draft now (record pp { status = draft }))
                    (λ r e. e) other c.rows n,
          )
      | inr w ↦ (
        entries-remove_from_queue now entry c,
        ap (find pp.id) (rows ∙ rw w refl) ∙ (found ∙ ap some (rw w refl ∙ settled_row now pp)),
        λ other n. ap (find other) (rows ∙ rw w refl),
      )
    ]
