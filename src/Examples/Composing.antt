-- ===== src/Examples/Composing.antt =====
-- The status derivation and the transition table on concrete rows.
use ai_social_brightbean_stu.Common.{
  ◌≡◌, inl, inr, refl, true, Option, none, some, List, [], ◌∷◌, arith, Bool-cases,
}
use ai_social_brightbean_stu.Composer.Status.{
  Status, draft, approved, scheduled, publishing, published, failed, on_hold, present, has, ◌is◌,
}
use ai_social_brightbean_stu.Composer.PlatformPost.{PlatformPost, can_transition}
use ai_social_brightbean_stu.Composer.PlatformPost.Graph.{Route, stop, move}
use ai_social_brightbean_stu.Examples.Data.{new_row}

abbrev mixed : List (Option Status)
mixed = some published ∷ none ∷ some failed ∷ some draft ∷ []

abbrev shuffled : List (Option Status)
shuffled = some draft ∷ some failed ∷ some draft ∷ some published ∷ []

same_words : (s : Status) → has (present mixed) s ≡ has (present shuffled) s
unfolding present
same_words s = elim (Bool-cases (draft is s)) [ inl h ↦ ground arith | inr h ↦ ground arith ]

lifted : can_transition on_hold approved ≡ true
unfolding can_transition ◌is◌
lifted = refl

planned : can_transition approved scheduled ≡ true
unfolding can_transition ◌is◌
planned = refl

taken : can_transition scheduled publishing ≡ true
unfolding can_transition ◌is◌
taken = refl

done : can_transition publishing published ≡ true
unfolding can_transition ◌is◌
done = refl

abbrev released : Route on_hold published
released = move on_hold approved lifted (
    move approved scheduled planned
      (move scheduled publishing taken (move publishing published done stop)))

abbrev failing : PlatformPost
failing = record (new_row 1 7 failed) { retry_count = 3; platform_post_id = some "old" }
