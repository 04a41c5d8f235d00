-- ===== src/ApiKeys/Tokens/Reading.antt =====
-- Tokens are read back as they were put together, and nothing else is read.
use mathlib.Core.Path.{subst}
use ai_social_brightbean_stu.Common.{
  ◌≡◌, ◌≤◌, refl, sym, ap, ◌∙◌, true, false, Option, none, some, [], ◌∷◌, ◌++◌, arith, ◌==◌,
  if◌then◌else◌, length, All, ◌↔◌,
}
use ai_social_brightbean_stu.ApiKeys.Tokens.{
  Text, token_prefix, lookup_len, same_text, strip_prefix, split_last, ParsedToken, is_plausible,
  parse_parts, parse_token, token_of,
}

-- No underscore.
abbrev pub IsPlain : Text → Type 0
IsPlain text = All (λ c. (c == b'_') ≡ false) text

pub same_text_refl : (t : Text) → same_text t t ≡ true
unfolding same_text
same_text_refl [] = refl
same_text_refl (c ∷ cs) = ground (arith, same_text_refl cs)

pub same_text_sound : (s t : Text) → same_text s t ≡ true → s ≡ t
unfolding same_text
same_text_sound [] [] h = refl
same_text_sound [] (d ∷ ds) h = cc
same_text_sound (c ∷ cs) [] h = cc
same_text_sound (c ∷ cs) (d ∷ ds) h = ground (arith, same_text_sound cs ds)

split-plain : (text : Text) → IsPlain text → split_last text ≡ none
unfolding split_last
split-plain [] h = refl
split-plain (c ∷ cs) h = ground (arith, split-plain cs h.1)

split-append :
    (random lookup : Text)
    → IsPlain lookup
    → split_last (random ++ (b'_' ∷ lookup)) ≡ some (random, lookup)
unfolding split_last
split-append [] lookup h = ground (arith, split-plain lookup h)
split-append (c ∷ cs) lookup h = ground (arith, split-append cs lookup h)

split_sound :
    (text before after : Text)
    → split_last text ≡ some (before, after)
    → text ≡ before ++ (b'_' ∷ after)
unfolding split_last
split_sound [] before after h = ground arith
split_sound (c ∷ cs) before after h = last (split_last cs) refl h (split_sound cs)
  where
    last :
        (r : Option (Text × Text))
        → split_last cs ≡ r
        → ◌≡◌ {A = Option (Text × Text)}
            (elim r [
              | some (b, a) ↦ some (c ∷ b, a)
              | none ↦ if c == b'_' then some ([], cs) else none
            ])
            (some (before, after))
        → ((b a : Text) → split_last cs ≡ some (b, a) → cs ≡ b ++ (b'_' ∷ a))
        → c ∷ cs ≡ before ++ (b'_' ∷ after)
    last none e k ih = ground (arith, k)
    last (some (b, a)) e k ih = ground (arith, k, ih b a e)

strip_sound : (p text rest : Text) → strip_prefix p text ≡ some rest → text ≡ p ++ rest
unfolding strip_prefix
strip_sound [] text rest h = ground arith
strip_sound (p ∷ ps) [] rest h = ground arith
strip_sound (p ∷ ps) (c ∷ cs) rest h = ground (arith, strip_sound ps cs rest)

strip-append : (p rest : Text) → strip_prefix p (p ++ rest) ≡ some rest
unfolding strip_prefix
strip-append [] rest = refl
strip-append (p ∷ ps) rest = ground (arith, strip-append ps rest)

-- The lengths that the parser takes.
abbrev pub IsSecret : Text → Type 0
IsSecret random = (32 ≤ length random) × (length random ≤ 64)

parts_inv :
    (make_lookup : Text → Text) (random lookup : Text) (p : ParsedToken)
    → parse_parts make_lookup (some (random, lookup)) ≡ some p
    → (p.random_part ≡ random)
      × (p.lookup_prefix ≡ lookup)
      × IsSecret random
      × (same_text (make_lookup random) lookup ≡ true)
unfolding parse_parts is_plausible
parts_inv make_lookup random lookup p h = ground arith

module _ (make_lookup : Text → Text) (digits : (t : Text) → IsPlain (make_lookup t))
    (eight : (t : Text) → length (make_lookup t) ≡ lookup_len) where
  parse-token :
      (random : Text)
      → IsSecret random
      → parse_token make_lookup (token_of make_lookup random)
        ≡ some (record { random_part = random; lookup_prefix = make_lookup random })
  unfolding parse_token token_of
  parse-token random h =
      let stripped = strip-append token_prefix (random ++ (b'_' ∷ make_lookup random)) in
      let halves = split-append random (make_lookup random) (digits random) in
      let plausible : is_plausible make_lookup random (make_lookup random) ≡ true =
        unfold is_plausible in
        ground (arith, eight random, same_text_refl (make_lookup random), h.0, h.1) in
      ground (arith, stripped, halves, plausible)

  parse_sound :
      (raw : Text) (p : ParsedToken)
      → parse_token make_lookup raw ≡ some p
      → (raw ≡ token_of make_lookup p.random_part)
        × IsSecret p.random_part
        × (p.lookup_prefix ≡ make_lookup p.random_part)
  unfolding parse_token token_of
  parse_sound raw p h = body (strip_prefix token_prefix raw) refl h
    where
      parts :
          (b : Text) (r : Option (Text × Text))
          → strip_prefix token_prefix raw ≡ some b
          → split_last b ≡ r
          → parse_parts make_lookup r ≡ some p
          → (raw ≡ token_prefix ++ (p.random_part ++ (b'_' ∷ make_lookup p.random_part)))
            × IsSecret p.random_part
            × (p.lookup_prefix ≡ make_lookup p.random_part)
      parts b none e f k = ground (arith, k)
      parts b (some (random, lookup)) e f k =
          let (er, el, secret, same) = parts_inv make_lookup random lookup p k in
          let hash = same_text_sound (make_lookup random) lookup same in
          let text : raw ≡ token_prefix ++ (random ++ (b'_' ∷ make_lookup random)) =
            strip_sound token_prefix raw b e
            ∙ ap (λ x. token_prefix ++ x) (split_sound b random lookup f)
            ∙ ap (λ x. token_prefix ++ (random ++ (b'_' ∷ x))) (sym hash) in
          subst
            (λ r.
              (raw ≡ token_prefix ++ (r ++ (b'_' ∷ make_lookup r)))
              × IsSecret r
              × (p.lookup_prefix ≡ make_lookup r))
            (sym er) (text, secret, el ∙ sym hash)

      body :
          (r : Option Text)
          → strip_prefix token_prefix raw ≡ r
          → elim r [ none ↦ none | some b ↦ parse_parts make_lookup (split_last b) ] ≡ some p
          → (raw ≡ token_prefix ++ (p.random_part ++ (b'_' ∷ make_lookup p.random_part)))
            × IsSecret p.random_part
            × (p.lookup_prefix ≡ make_lookup p.random_part)
      body none e k = ground (arith, k)
      body (some b) e k = parts b (split_last b) e refl k

  -- Exactly the tokens that issuing makes are read, each as the secret and the lookup that it was made
  -- of, for secrets of 32 to 64 characters, underscores included, if the lookup of a secret is eight
  -- characters without an underscore.
  pub parse_exact :
      (raw : Text) (p : ParsedToken)
      → (parse_token make_lookup raw ≡ some p) ↔ (
          (raw ≡ token_of make_lookup p.random_part)
          × IsSecret p.random_part
          × (p.lookup_prefix ≡ make_lookup p.random_part))
  parse_exact raw p = (
    parse_sound raw p,
    λ (e, secret, l).
        ap (parse_token make_lookup) e ∙ parse-token p.random_part secret ∙ ground (arith, l),
  )
