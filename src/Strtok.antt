-- ===== src/Strtok.antt =====
-- `strtok` and `strtok_r` of the C library with one delimiter, as server/src/server_helper.c and
-- client/src/client.c use them: a token, and the string that is left.
pub mod Words
use pyramid.Prelude.{ℕ, Option, none, some, [], ◌∷◌, ◌==◌, if◌then◌else◌}
use pyramid.Wire.{Bytes}

-- The characters before the first delimiter, and those behind it.
unfoldable pub before_delim : ℕ → Bytes → Bytes
before_delim d [] = []
before_delim d (c ∷ p) = if c == d then [] else c ∷ before_delim d p

unfoldable pub behind_delim : ℕ → Bytes → Bytes
behind_delim d [] = []
behind_delim d (c ∷ p) = if c == d then p else behind_delim d p

-- The delimiters in front, and what follows them.
unfoldable pub leading_delims : ℕ → Bytes → Bytes
leading_delims d [] = []
leading_delims d (c ∷ p) = if c == d then c ∷ leading_delims d p else []

unfoldable pub skip_delims : ℕ → Bytes → Bytes
skip_delims d [] = []
skip_delims d (c ∷ p) = if c == d then skip_delims d p else c ∷ p

-- The token in a string that starts with no delimiter; `none` is NULL.
abbrev pub token_of : ℕ → Bytes → Option (Bytes × Bytes)
token_of d [] = none
token_of d (c ∷ p) = some (before_delim d (c ∷ p), behind_delim d (c ∷ p))

unfoldable pub strtok_r : ℕ → Bytes → Option (Bytes × Bytes)
unfolding skip_delims before_delim behind_delim
strtok_r d saved = token_of d (skip_delims d saved)
