-- ===== src/Approvals/Reminders/Frame.antt =====
-- The check of one post writes the reminder of that post and stage, and no other.
use ai_social_brightbean_stu.Common.{
  ℕ, ◌≡◌, refl, true, ◌&&◌, List, [], ◌∷◌, arith, ◌==◌, ==→eq, ==_refl, if◌then◌else◌, Bool-cases,
  inl, inr,
}
use ai_social_brightbean_stu.Composer.PlatformPost.{Post}
use ai_social_brightbean_stu.Approvals.Desk.{
  Stage, review_stage, client_stage, same_stage, is_for, ApprovalReminder, put_reminder, Workspace,
  Desk,
}
use ai_social_brightbean_stu.Approvals.Reminders.{
  threshold, Verdict, nothing, remind, escalate, check_reminder, get_reminder, announce,
  process_post,
}

same_stage→eq : (a b : Stage) → same_stage a b ≡ true → a ≡ b
same_stage→eq review_stage review_stage h = refl
same_stage→eq client_stage client_stage h = refl
same_stage→eq review_stage client_stage h = ground arith
same_stage→eq client_stage review_stage h = ground arith

same_stage_refl : (a : Stage) → same_stage a a ≡ true
same_stage_refl review_stage = refl
same_stage_refl client_stage = refl

get_reminder_key :
    (key : ℕ) (s : Stage) (rs : List ApprovalReminder)
    → ((get_reminder key s rs).post_id ≡ key) × ((get_reminder key s rs).stage ≡ s)
unfolding get_reminder
get_reminder_key key s [] = (refl, refl)
get_reminder_key key s (r ∷ rs) =
    ground (arith, get_reminder_key key s rs, ==→eq r.post_id key, same_stage→eq r.stage s)

check_reminder_key :
    (now span : ℕ) (r : ApprovalReminder)
    → ((check_reminder now span r).0.post_id ≡ r.post_id)
      × ((check_reminder now span r).0.stage ≡ r.stage)
unfolding check_reminder
check_reminder_key now span r = (ground arith, ground arith)

is_for→eq :
    (key : ℕ) (s : Stage) (r : ApprovalReminder)
    → is_for key s r ≡ true
    → (r.post_id ≡ key) × (r.stage ≡ s)
is_for→eq key s r h = (==→eq r.post_id key (ground arith), same_stage→eq r.stage s (ground arith))

same_key :
    (key : ℕ) (s : Stage) (new r : ApprovalReminder)
    → is_for new.post_id new.stage r ≡ true
    → is_for key s r ≡ is_for key s new
same_key key s new r h = let (id, st) = is_for→eq new.post_id new.stage r h in simp (id, st) refl

shared_key :
    (key : ℕ) (s : Stage) (new r : ApprovalReminder)
    → is_for key s r ≡ true
    → is_for key s new ≡ true
    → is_for new.post_id new.stage r ≡ true
shared_key key s new r h k =
    let (id, st) = is_for→eq key s r h in
    let (id', st') = is_for→eq key s new k in
    simp (id, st, id', st', ==_refl key, same_stage_refl s) refl

get-put_reminder :
    (new : ApprovalReminder) (key : ℕ) (s : Stage) (rs : List ApprovalReminder)
    → get_reminder key s (put_reminder new rs)
      ≡ (if new.post_id == key && same_stage new.stage s then new else get_reminder key s rs)
unfolding get_reminder put_reminder
get-put_reminder new key s [] = refl
get-put_reminder new key s (r ∷ rs) = elim (Bool-cases (is_for new.post_id new.stage r)) [
  | inl h ↦ ground (arith, same_key key s new r h)
  | inr h ↦ ground (arith, shared_key key s new r, get-put_reminder new key s rs)
]

reminders-announce :
    (workspace : Workspace) (stage : Stage) (post_id : ℕ) (v : Verdict) (desk : Desk)
    → (announce workspace stage post_id v desk).reminders ≡ desk.reminders
unfolding announce
reminders-announce workspace stage post_id nothing desk = refl
reminders-announce workspace stage post_id remind desk = refl
reminders-announce workspace stage post_id escalate desk = refl

-- After the check of a post the reminder of that post and stage is the one that `check_reminder`
-- gives, and the reminder of every other post or stage is as it was.
pub process_post_reminder :
    (now : ℕ) (workspaces : ℕ → Workspace) (stage s : Stage) (post : Post) (key : ℕ) (desk : Desk)
    → get_reminder key s (process_post now workspaces stage post desk).reminders ≡ (
        if post.id == key && same_stage stage s
        then (check_reminder now (threshold stage) (get_reminder post.id stage desk.reminders)).0
        else get_reminder key s desk.reminders)
unfolding process_post
process_post_reminder now workspaces stage s post key desk =
    let old = get_reminder post.id stage desk.reminders in
    let new = (check_reminder now (threshold stage) old).0 in
    let (id, st) = check_reminder_key now (threshold stage) old in
    let (id', st') = get_reminder_key post.id stage desk.reminders in
    simp
      (
        reminders-announce (workspaces post.workspace) stage post.id
            (check_reminder now (threshold stage) old).1
            (record desk { reminders = put_reminder new desk.reminders }),
        get-put_reminder new key s desk.reminders,
        id,
        st,
        id',
        st',
      )
      refl
