-- ===== src/Approvals/Turns/Loop.antt =====
-- What the loop over the targets leaves in the table, given what one turn does.
use ai_social_brightbean_stu.Common.{
  ℕ, ◌≡◌, refl, ap, ◌∙◌, Bool, true, ◌&&◌, Option, none, some, List, [], ◌∷◌, ◌++◌, arith, ◌==◌,
  ==→eq, if◌then◌else◌, ◌⊎◌, inl, inr, All, filter, Bool-cases,
}
use ai_social_brightbean_stu.Composer.Status.{Status}
use ai_social_brightbean_stu.Composer.PlatformPost.{PlatformPost, Post}
use ai_social_brightbean_stu.Composer.Rows.{Rows, find}
use ai_social_brightbean_stu.Composer.Rows.Laws.{
  IsKeyed, find-filter, filter-IsKeyed, filter_present,
}
use ai_social_brightbean_stu.Approvals.Turns.{
  Target, bundle, single, resolve_targets, Turn, each_target,
}

-- The row of a target that was found, else the row as it was.
abbrev chosen :
    (PlatformPost → PlatformPost) → Option PlatformPost → Option PlatformPost → Option PlatformPost
chosen change none row = row
chosen change (some t) row = some (change t)

-- The copy that a single target holds is the row of the table.
abbrev pub IsFresh : Target → Rows → Type 0
IsFresh (bundle post) rows = Unit
IsFresh (single post pp) rows = find pp.id rows ≡ some pp

-- A turn changes the row of its target alone, by `change`.
abbrev pub Acts : (PlatformPost → Rows → Turn) → (PlatformPost → PlatformPost) → Type 0
Acts step change =
    (pp : PlatformPost) (rows : Rows) (key : ℕ)
    → find pp.id rows ≡ some pp
    → find key (step pp rows).1 ≡ (if pp.id == key then some (change pp) else find key rows)

same_row :
    (rows : Rows) (pp row : PlatformPost)
    → find pp.id rows ≡ some pp
    → find row.id rows ≡ some row
    → (pp.id == row.id) ≡ true
    → pp ≡ row
same_row rows pp row fresh found h = ground (arith, ==→eq pp.id row.id h)

module _ (step : PlatformPost → Rows → Turn) (change : PlatformPost → PlatformPost)
    (acts : Acts step change) where
  still :
      (pp : PlatformPost) (rows : Rows) (found : find pp.id rows ≡ some pp) (pps : Rows)
      → find pp.id pps ≡ none
      → All (λ t. find t.id rows ≡ some t) pps
      → All (λ t. find t.id (step pp rows).1 ≡ some t) pps
  unfolding find
  still pp rows found [] h a = tt
  still pp rows found (t ∷ ts) h (here, there) =
      (ground (arith, acts pp rows t.id found), still pp rows found ts (ground arith) there)

  each_effect :
      (key : ℕ) (targets rows : Rows)
      → IsKeyed targets
      → All (λ t. find t.id rows ≡ some t) targets
      → find key (each_target step targets rows).1
        ≡ chosen change (find key targets) (find key rows)
  unfolding find each_target
  each_effect key [] rows k a = refl
  each_effect key (pp ∷ pps) rows k a =
      each_effect key pps (step pp rows).1 k.1 (still pp rows a.0 pps k.0 a.1)
      ∙ ground (arith, acts pp rows key a.0, k.0)

  -- The loop over a whole post changes exactly the rows of the post that are eligible.
  pub bundle_effect :
      (eligible : Status → Bool) (post : Post) (rows : Rows) (row : PlatformPost)
      → IsKeyed rows
      → find row.id rows ≡ some row
      → find row.id (each_target step (resolve_targets eligible (bundle post) rows) rows).1
        ≡ some (if row.post_id == post.id && eligible row.status then change row else row)
  unfolding resolve_targets
  bundle_effect eligible post rows row k found =
      let test = λ (r : PlatformPost). r.post_id == post.id && eligible r.status in
      each_effect row.id (filter test rows) rows (filter-IsKeyed test rows k)
        (filter_present test rows k)
      ∙ ground (arith, find-filter test row.id rows row k found)

  -- The loop over any target changes no row but by `change`.
  pub target_effect :
      (eligible : Status → Bool) (target : Target) (rows : Rows) (row : PlatformPost)
      → IsKeyed rows
      → IsFresh target rows
      → find row.id rows ≡ some row
      → (find row.id (each_target step (resolve_targets eligible target rows) rows).1 ≡ some row)
        ⊎ (find row.id (each_target step (resolve_targets eligible target rows) rows).1
            ≡ some (change row))
  unfolding resolve_targets each_target
  target_effect eligible (bundle post) rows row k fresh found =
      elim (Bool-cases (row.post_id == post.id && eligible row.status)) [
        | inl h ↦ inr (ground (arith, bundle_effect eligible post rows row k found))
        | inr h ↦ inl (ground (arith, bundle_effect eligible post rows row k found))
      ]
  target_effect eligible (single post pp) rows row k fresh found =
      elim (Bool-cases (pp.id == row.id)) [
        | inl h ↦ inr (
            acts pp rows row.id fresh
            ∙ rw h (ap (λ r. some (change r)) (same_row rows pp row fresh found h)))
        | inr h ↦ inl (acts pp rows row.id fresh ∙ rw h found)
      ]

-- A turn that moves nothing leaves the table as it is.
abbrev pub Quiet : (PlatformPost → Rows → Turn) → Type 0
Quiet step = (pp : PlatformPost) (rows : Rows) → (step pp rows).0 ≡ [] → (step pp rows).1 ≡ rows

append_nil : {A : Type 0} (xs ys : List A) → xs ++ ys ≡ [] → (xs ≡ []) × (ys ≡ [])
append_nil [] ys h = (refl, h)
append_nil (x ∷ xs) ys h = ground arith

pub each_target-Quiet :
    (step : PlatformPost → Rows → Turn)
    → Quiet step
    → (targets rows : Rows) → (each_target step targets rows).0 ≡ []
    → (each_target step targets rows).1 ≡ rows
unfolding each_target
each_target-Quiet step quiet [] rows h = refl
each_target-Quiet step quiet (pp ∷ pps) rows h =
    let (here, there) = append_nil (step pp rows).0 (each_target step pps (step pp rows).1).0 h in
    each_target-Quiet step quiet pps (step pp rows).1 there ∙ quiet pp rows here
