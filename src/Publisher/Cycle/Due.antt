-- ===== src/Publisher/Cycle/Due.antt =====
-- What the two queries of a cycle pick, and in which order.
use ai_social_brightbean_stu.Common.{
  ℕ, ◌≡◌, ◌≤◌, ◌<◌, ◌⊎◌, true, false, some, arith, filter, length, All, In, In-filter, filter-All,
  length-take, All-take, All-sort, IsSortedBy, sort-IsSortedBy, take-IsSortedBy, In-sort, In-take,
}
use ai_social_brightbean_stu.Composer.Status.{scheduled, ◌is◌}
use ai_social_brightbean_stu.Composer.PlatformPost.{PlatformPost}
use ai_social_brightbean_stu.Composer.Rows.{is_held}
use ai_social_brightbean_stu.Publisher.Store.{Store}
use ai_social_brightbean_stu.Publisher.Failure.{max_retries}
use ai_social_brightbean_stu.Publisher.Cycle.{
  is_due, due_time, get_due_platform_posts, is_due_for_retry,
}

-- The list holds due rows alone, at most `limit` of them, the earliest first; and a due row of the
-- table that it leaves out is no earlier than any row that it holds.
pub due_list :
    (limit now : ℕ) (db : Store)
    → All (λ row. is_due now db row ≡ true) (get_due_platform_posts limit now db)
      × (length (get_due_platform_posts limit now db) ≤ limit)
      × IsSortedBy (due_time db) (get_due_platform_posts limit now db)
      × ((row : PlatformPost)
          → In row db.rows
          → is_due now db row ≡ true
          → In row (get_due_platform_posts limit now db)
            ⊎ All
                (λ listed. due_time db listed ≤ due_time db row)
                (get_due_platform_posts limit now db))
unfolding get_due_platform_posts
due_list limit now db =
    let due = filter (is_due now db) db.rows in
    let order = sort-IsSortedBy (due_time db) due in
    (
      All-take _ limit _ (All-sort (due_time db) _ due (filter-All (is_due now db) db.rows)),
      length-take limit _,
      take-IsSortedBy (due_time db) limit _ order,
      λ row held passes.
          In-take (due_time db) limit row _ order
            (In-sort (due_time db) row due (In-filter (is_due now db) row db.rows held passes)),
    )

-- A row that waits for a retry is picked by neither query before its time; from that time on, while
-- its count is within the budget and no row of its post is on hold, the retry query picks it.
pub backoff_respected :
    (now t : ℕ) (db : Store) (row : PlatformPost)
    → row.status ≡ scheduled
    → 0 < row.retry_count
    → row.next_retry_at ≡ some t
    → (now < t → (is_due now db row ≡ false) × (is_due_for_retry now db row ≡ false))
      × (t ≤ now
          → row.retry_count ≤ max_retries
          → is_held row.post_id db.rows ≡ false
          → is_due_for_retry now db row ≡ true)
unfolding is_due is_due_for_retry ◌is◌
backoff_respected now t db row s c r = ground arith
