-- ===== src/Tests/Numbers.antt =====
-- The plug-in on a file of two numbers.
use pyramid.Prelude.{ℕ, List, [], ◌∷◌, length}
use pyramid.Wire.{Bytes}

-- A reading of numbers that counts characters.
abbrev count : Bytes → ℕ
count l = length l

abbrev two_lines : List Bytes
two_lines = (b'1' ∷ []) ∷ (b'1' ∷ b'1' ∷ []) ∷ []
