-- ===== src/ApiKeys/Tokens.antt =====
-- The tokens of apps/api_keys/services.py as lists of code points: how a token is put together and
-- `parse_token`. The first eight digits of the hash of a secret are a parameter.
pub mod Reading
use ai_social_brightbean_stu.Common.{
  ℕ, ◌+◌, Bool, true, false, not, ◌&&◌, Option, none, some, List, [], ◌∷◌, ◌++◌, leb, ◌==◌,
  if◌then◌else◌, length,
}

abbrev pub Text : Type 0
Text = List ℕ

-- `TOKEN_PREFIX`
abbrev pub token_prefix : Text
token_prefix = b'b' ∷ b'b' ∷ b'_' ∷ b's' ∷ b't' ∷ b'u' ∷ b'd' ∷ b'i' ∷ b'o' ∷ b'_' ∷ []

abbrev pub lookup_len : ℕ
lookup_len = 8

unfoldable pub same_text : Text → Text → Bool
same_text [] [] = true
same_text (c ∷ cs) (d ∷ ds) = c == d && same_text cs ds
same_text _ _ = false

-- The rest of a text after a prefix.
unfoldable pub strip_prefix : Text → Text → Option Text
strip_prefix [] text = some text
strip_prefix (p ∷ ps) [] = none
strip_prefix (p ∷ ps) (c ∷ cs) = let rest = strip_prefix ps cs in if p == c then rest else none

-- `rsplit("_", 1)` where it gives two parts.
unfoldable pub split_last : Text → Option (Text × Text)
split_last [] = none
split_last (c ∷ cs) = elim (split_last cs) [
  | some (before, after) ↦ some (c ∷ before, after)
  | none ↦ if c == b'_' then some ([], cs) else none
]

pub record ParsedToken : Type 0 where
  pub random_part : Text
  pub lookup_prefix : Text

is_plausible : (Text → Text) → Text → Text → Bool
is_plausible make_lookup random lookup =
    length lookup == lookup_len
    && (leb 32 (length random) && leb (length random) 64)
    && same_text (make_lookup random) lookup

parse_parts : (Text → Text) → Option (Text × Text) → Option ParsedToken
parse_parts make_lookup none = none
parse_parts make_lookup (some (random, lookup)) =
    if is_plausible make_lookup random lookup
    then some (record { random_part = random; lookup_prefix = lookup })
    else none

-- `parse_token`
unfoldable pub parse_token : (Text → Text) → Text → Option ParsedToken
unfolding parse_parts is_plausible
parse_token make_lookup raw = elim (strip_prefix token_prefix raw) [
  | none ↦ none
  | some body ↦ parse_parts make_lookup (split_last body)
]

-- The token of a secret.
unfoldable pub token_of : (Text → Text) → Text → Text
token_of make_lookup random = token_prefix ++ (random ++ (b'_' ∷ make_lookup random))
