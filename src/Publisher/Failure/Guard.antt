-- ===== src/Publisher/Failure/Guard.antt =====
-- `_fail_permanently` settles a row only out of `publishing`.
use ai_social_brightbean_stu.Common.{
  ℕ, ◌≡◌, ◌≢◌, ◌∙◌, false, some, ◌∷◌, arith, if◌then◌else◌, ◌&&◌, is_some,
}
use ai_social_brightbean_stu.SocialAccounts.ErrorMessages.{UserText}
use ai_social_brightbean_stu.Composer.Status.{publishing, ◌is◌}
use ai_social_brightbean_stu.Composer.PlatformPost.{PlatformPost}
use ai_social_brightbean_stu.Composer.Rows.{find, update, matches}
use ai_social_brightbean_stu.Composer.Rows.Laws.{
  updated, holds_at, IsKeyed, find-update_self, find-update_ne, matches-find,
}
use ai_social_brightbean_stu.Publisher.Store.{Store}
use ai_social_brightbean_stu.Publisher.Failure.{is_publishing, set_failed, fail_permanently}

-- What a call for the copy `pp` leaves behind.
pub record IsSettled (now : ℕ) (pp : PlatformPost) (message : UserText) (db after : Store)
    : Type 0 where
  pub own_row :
      find pp.id after.rows ≡ updated is_publishing (set_failed now message) (find pp.id db.rows)
  pub other_rows : (other : ℕ) → other ≢ pp.id → find other after.rows ≡ find other db.rows
  pub told_author : after.told ≡ (
      if holds_at is_publishing (find pp.id db.rows) && is_some (db.post_of pp.post_id).author
      then pp.id ∷ db.told
      else db.told)
  pub same_posts : after.post_of ≡ db.post_of
  pub same_tasks : after.tasks ≡ db.tasks
  pub same_queue : after.queue ≡ db.queue

module _ (now : ℕ) (pp : PlatformPost) (message : UserText) (db : Store) where
  rows-fail_permanently :
      (fail_permanently now pp message db).rows
      ≡ update pp.id is_publishing (set_failed now message) db.rows
  unfolding fail_permanently
  rows-fail_permanently = ground arith

  told-fail_permanently : (fail_permanently now pp message db).told ≡ (
      if matches pp.id is_publishing db.rows && is_some (db.post_of pp.post_id).author
      then pp.id ∷ db.told
      else db.told)
  unfolding fail_permanently
  told-fail_permanently = ground arith

  same-fail_permanently :
      ((fail_permanently now pp message db).post_of ≡ db.post_of)
      × ((fail_permanently now pp message db).tasks ≡ db.tasks)
      × ((fail_permanently now pp message db).queue ≡ db.queue)
  unfolding fail_permanently
  same-fail_permanently = ground arith

-- The row of `pp` becomes `failed` exactly if the table still has it `publishing`; every other row,
-- and a row in any other status, is left as it was; the author is told exactly when the row was
-- settled by this call and the post has an author.
pub fail_permanently-IsSettled :
    (now : ℕ) (pp : PlatformPost) (message : UserText) (db : Store)
    → IsKeyed db.rows
    → IsSettled now pp message db (fail_permanently now pp message db)
fail_permanently-IsSettled now pp message db keyed = record {
  own_row =
      rw rows-fail_permanently
        (find-update_self pp.id is_publishing (set_failed now message) (λ row e. e) db.rows);
  other_rows = λ other n.
      rw rows-fail_permanently
        (find-update_ne pp.id is_publishing (set_failed now message) (λ row e. e) other db.rows n);
  told_author =
      told-fail_permanently now pp message db
      ∙ (rw (matches-find pp.id is_publishing db.rows keyed));
  same_posts = (same-fail_permanently now pp message db).0;
  same_tasks = (same-fail_permanently now pp message db).1;
  same_queue = (same-fail_permanently now pp message db).2;
}

-- A post that the platform confirmed is never walked back, nor is a pending retry thrown away:
-- whatever copy the caller holds, a row that the table has in a status other than `publishing` is
-- the same row after the call, and nobody is told.
pub fail_permanently_spares :
    (now : ℕ) (pp row : PlatformPost) (message : UserText) (db : Store)
    → IsKeyed db.rows
    → find pp.id db.rows ≡ some row
    → (row.status is publishing) ≡ false
    → (find pp.id (fail_permanently now pp message db).rows ≡ some row)
      × ((fail_permanently now pp message db).told ≡ db.told)
fail_permanently_spares now pp row message db keyed found other =
    let s = fail_permanently-IsSettled now pp message db keyed in
    (ground (arith, s.own_row), ground (arith, s.told_author))
