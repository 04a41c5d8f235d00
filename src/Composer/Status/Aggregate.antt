-- ===== src/Composer/Status/Aggregate.antt =====
-- The aggregate of a post depends only on which words its children hold.
use mathlib.Core.Path.{fun_ext}
use ai_social_brightbean_stu.Common.{
  ◌≤◌, ◌≡◌, refl, ap, Bool, true, false, Option, List, [], ◌∷◌, arith, ◌⊎◌, length, all, inl, inr,
  Bool-cases, if◌then◌else◌, ◌&&◌,
}
use ai_social_brightbean_stu.Composer.Status.{
  Status, draft, pending_review, pending_client, approved, changes_requested, rejected, scheduled,
  publishing, published, failed, on_hold, PostStatus, child, partially_published, ◌is◌, has, unique,
  lowest, rank, is_terminal, present, combine_terminal, surface, derive_values, derive_nonempty,
  derive_post_status,
}
use ai_social_brightbean_stu.Composer.Status.Members.{
  is→eq, is_refl, has-unique, has-lowest, lowest-le, has_of_all, find_failing, same_of_single,
}

-- The documented order as a decision list over which words occur.
pub aggregate : (Status → Bool) → PostStatus
aggregate held =
    if held draft
    then child draft
    else if held changes_requested
    then child changes_requested
    else if held rejected
    then child rejected
    else if held on_hold
    then (if held published then partially_published else child on_hold)
    else if held pending_review
    then child pending_review
    else if held pending_client
    then child pending_client
    else if held approved
    then child approved
    else if held scheduled
    then child scheduled
    else if held publishing
    then child publishing
    else if held published
    then (if held failed then partially_published else child published)
    else if held failed
    then child failed
    else child draft

-- A word that is held while no lower one is decides the aggregate.
aggregate_of_lowest :
    (held : Status → Bool) (s : Status)
    → held s ≡ true
    → ((t : Status) → held t ≡ true → rank s ≤ rank t)
    → aggregate held ≡ (
        if s is on_hold && held published
        then partially_published
        else if s is published && held failed
        then partially_published
        else child s)
unfolding aggregate rank ◌is◌
aggregate_of_lowest held draft h below = ground arith
aggregate_of_lowest held changes_requested h below = ground (arith, below draft)
aggregate_of_lowest held rejected h below = ground (arith, below draft, below changes_requested)
aggregate_of_lowest held on_hold h below =
    ground (arith, below draft, below changes_requested, below rejected)
aggregate_of_lowest held s h below = ground (
  arith,
  below draft,
  below changes_requested,
  below rejected,
  below on_hold,
  below pending_review,
  below pending_client,
  below approved,
  below scheduled,
  below publishing,
  below published,
)

module _ (v : Status) (vs : List Status) where
  abbrev held : Status → Bool
  held = has (v ∷ vs)

  abbrev words : List Status
  words = unique (v ∷ vs)

  held_of_words : (s : Status) → has words s ≡ true → held s ≡ true
  held_of_words s h = ground (arith, has-unique (v ∷ vs) s)

  words_of_held : (s : Status) → held s ≡ true → has words s ≡ true
  words_of_held s h = ground (arith, has-unique (v ∷ vs) s)

  held_first : held v ≡ true
  held_first = ground (arith, is_refl v)

  same : length words ≡ 1 → (t : Status) → held t ≡ true → v ≡ t
  same one t h = same_of_single words v t one (words_of_held v held_first) (words_of_held t h)

  single : length words ≡ 1 → child v ≡ aggregate held
  single one =
      rw (aggregate_of_lowest held v held_first (λ t h. rw (same one t h) (omega arith)))
        (ground (arith, is→eq v on_hold, is→eq v published, same one published, same one failed))

  terminal_of_held :
      all is_terminal words ≡ true → (t : Status) → held t ≡ true → is_terminal t ≡ true
  terminal_of_held a t h = has_of_all is_terminal words t a (words_of_held t h)

  outcome :
      all is_terminal words ≡ true → (t : Status) → held t ≡ true → (t ≡ published) ⊎ (t ≡ failed)
  unfolding is_terminal
  outcome a t h = ground (arith, terminal_of_held a t h, is→eq t published, is→eq t failed)

  published_least :
      all is_terminal words ≡ true → (t : Status) → held t ≡ true → rank published ≤ rank t
  unfolding rank
  published_least a t h = ground (arith, outcome a t h)

  failed_least :
      all is_terminal words ≡ true
      → held published ≡ false
      → (t : Status) → held t ≡ true
      → rank failed ≤ rank t
  failed_least a none_published t h = ground (arith, outcome a t h)

  -- With nothing failed, every word of the set is `published`.
  all_published :
      all is_terminal words ≡ true → held failed ≡ false → all (λ s. s is published) words ≡ true
  all_published a none_failed = elim (Bool-cases (all (λ s. s is published) words)) [
    | inl e ↦ e
    | inr e ↦
        let (s, m, f) = find_failing (λ s. s is published) words e in
        ground (arith, outcome a s (held_of_words s m), is_refl published, held_of_words s m)
  ]

  terminal_published :
      all is_terminal words ≡ true → held published ≡ true → combine_terminal words ≡ aggregate held
  unfolding combine_terminal
  terminal_published a p = rw (aggregate_of_lowest held published p (published_least a)) (
      unfold ◌is◌ in
      ground (arith, all_published a, has-unique (v ∷ vs) published, has-unique (v ∷ vs) failed))

  held_failed : all is_terminal words ≡ true → held published ≡ false → held failed ≡ true
  held_failed a p = ground (arith, outcome a v held_first, held_first)

  terminal_failed :
      all is_terminal words ≡ true
      → held published ≡ false
      → combine_terminal words ≡ aggregate held
  unfolding combine_terminal
  terminal_failed a p = rw (aggregate_of_lowest held failed (held_failed a p) (failed_least a p)) (
      unfold ◌is◌ in
      ground (
        arith,
        has-unique (v ∷ vs) published,
        has_of_all (λ s. s is published) words failed,
        words_of_held failed (held_failed a p),
      ))

  above_terminal :
      (m s : Status) → rank m ≤ rank s → is_terminal s ≡ false → (m is published) ≡ false
  unfolding rank is_terminal ◌is◌
  above_terminal m s h f = ground arith

  mixed : all is_terminal words ≡ false → surface (lowest v vs) words ≡ aggregate held
  unfolding surface
  mixed a =
      let (s, m, f) = find_failing is_terminal words a in
      rw (aggregate_of_lowest held (lowest v vs) (has-lowest v vs) (lowest-le v vs)) (
        ground (
          arith,
          above_terminal (lowest v vs) s (lowest-le v vs s (held_of_words s m)) f,
          has-unique (v ∷ vs) published,
        ))

  derive_values-eq : derive_values v vs ≡ aggregate held
  unfolding derive_values
  derive_values-eq = ground (arith, single, mixed, terminal_published, terminal_failed)

derive_nonempty-eq : (values : List Status) → derive_nonempty values ≡ aggregate (has values)
unfolding derive_nonempty
derive_nonempty-eq [] = unfold aggregate in refl
derive_nonempty-eq (v ∷ vs) = derive_values-eq v vs

pub derive-eq-aggregate :
    (statuses : List (Option Status))
    → derive_post_status statuses ≡ aggregate (has (present statuses))
unfolding derive_post_status
derive-eq-aggregate statuses = derive_nonempty-eq (present statuses)

-- Two lists that hold the same words have the same aggregate, whatever the order of the children
-- and however often a word occurs.
pub derive_of_same_words :
    (xs ys : List (Option Status))
    → ((s : Status) → has (present xs) s ≡ has (present ys) s)
    → derive_post_status xs ≡ derive_post_status ys
derive_of_same_words xs ys h =
    rw (derive-eq-aggregate xs, derive-eq-aggregate ys) (ap aggregate (fun_ext h))
