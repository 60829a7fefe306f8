-- ===== src/Strtok/Words.antt =====
-- The tokens of words with delimiters between them.
use pyramid.Prelude.{
  ℕ, ◌<◌, ◌≡◌, ◌≢◌, refl, ap, ◌∙◌, true, false, none, some, [], ◌∷◌, ◌++◌, arith, length, All, ◌==◌,
}
use pyramid.Wire.{Bytes}
use pyramid.Strtok.{before_delim, behind_delim, leading_delims, skip_delims, token_of, strtok_r}

-- No delimiter is in the text.
abbrev pub IsWord : ℕ → Bytes → Type 0
IsWord d = All (λ b. b ≢ d)

module _ (d : ℕ) where
  pub before_delim-append : (p rest : Bytes) → IsWord d p → before_delim d (p ++ (d ∷ rest)) ≡ p
  unfolding before_delim
  before_delim-append [] rest h = let yes : (d == d) ≡ true = ground arith in rw yes refl
  before_delim-append (c ∷ p) rest (ne, h) =
      let no : (c == d) ≡ false = ground arith in rw (no, before_delim-append p rest h) refl

  pub behind_delim-append : (p rest : Bytes) → IsWord d p → behind_delim d (p ++ (d ∷ rest)) ≡ rest
  unfolding behind_delim
  behind_delim-append [] rest h = let yes : (d == d) ≡ true = ground arith in rw yes refl
  behind_delim-append (c ∷ p) rest (ne, h) =
      let no : (c == d) ≡ false = ground arith in rw (no, behind_delim-append p rest h) refl

  before_delim-whole : (p : Bytes) → IsWord d p → before_delim d p ≡ p
  unfolding before_delim
  before_delim-whole [] h = refl
  before_delim-whole (c ∷ p) (ne, h) =
      let no : (c == d) ≡ false = ground arith in rw (no, before_delim-whole p h) refl

  behind_delim-whole : (p : Bytes) → IsWord d p → behind_delim d p ≡ []
  unfolding behind_delim
  behind_delim-whole [] h = refl
  behind_delim-whole (c ∷ p) (ne, h) =
      let no : (c == d) ≡ false = ground arith in rw (no, behind_delim-whole p h) refl

  pub skip_delims-word : (c : ℕ) (p : Bytes) → c ≢ d → skip_delims d (c ∷ p) ≡ c ∷ p
  unfolding skip_delims
  skip_delims-word c p ne = let no : (c == d) ≡ false = ground arith in rw no refl

  pub skip_delims-delim : (p : Bytes) → skip_delims d (d ∷ p) ≡ skip_delims d p
  unfolding skip_delims
  skip_delims-delim p = let yes : (d == d) ≡ true = ground arith in rw yes refl

  pub leading_delims-word : (c : ℕ) (p : Bytes) → c ≢ d → leading_delims d (c ∷ p) ≡ []
  unfolding leading_delims
  leading_delims-word c p ne = let no : (c == d) ≡ false = ground arith in rw no refl

  pub strtok_r-word :
      (c : ℕ) (p : Bytes)
      → c ≢ d
      → strtok_r d (c ∷ p) ≡ some (before_delim d (c ∷ p), behind_delim d (c ∷ p))
  unfolding strtok_r
  strtok_r-word c p ne = ap (token_of d) (skip_delims-word c p ne)

  pub strtok_r-delim : (p : Bytes) → strtok_r d (d ∷ p) ≡ strtok_r d p
  unfolding strtok_r
  strtok_r-delim p = ap (token_of d) (skip_delims-delim p)

  pub strtok_r-nil : strtok_r d [] ≡ none
  unfolding strtok_r
  strtok_r-nil = refl

  -- A word that is not empty, with a delimiter behind it, is the first token.
  pub strtok_r-append :
      (p rest : Bytes) → IsWord d p → 0 < length p → strtok_r d (p ++ (d ∷ rest)) ≡ some (p, rest)
  strtok_r-append [] rest h low = absurd (omega arith)
  strtok_r-append (c ∷ p) rest h low =
      strtok_r-word c (p ++ (d ∷ rest)) h.0
      ∙ rw (before_delim-append (c ∷ p) rest h, behind_delim-append (c ∷ p) rest h) refl

  -- A word that is not empty is the last token.
  pub strtok_r-last : (p : Bytes) → IsWord d p → 0 < length p → strtok_r d p ≡ some (p, [])
  strtok_r-last [] h low = absurd (omega arith)
  strtok_r-last (c ∷ p) h low =
      strtok_r-word c p h.0 ∙ rw (before_delim-whole (c ∷ p) h, behind_delim-whole (c ∷ p) h) refl
