-- ===== src/Plugin/Largest.antt =====
-- What `main_api` of dynamic/src/api.c writes.
use pyramid.Prelude.{◌≡◌, ◌⊎◌, true, false, List, [], ◌∷◌, leb_ℤ, ℤ, ℕ, pos, as_int, All}
use pyramid.Wire.{Bytes}

-- The value is one of the list.
abbrev pub IsOneOf : ℤ → List ℤ → Type 0
IsOneOf v [] = true ≡ false
IsOneOf v (x ∷ xs) = (v ≡ x) ⊎ IsOneOf v xs

-- `r` is `m` or one of `vs`, and at least each of them.
abbrev IsLargest : ℤ → ℤ → List ℤ → Type 0
IsLargest r m vs = IsOneOf r (m ∷ vs) × (leb_ℤ m r ≡ true) × All (λ v. leb_ℤ v r ≡ true) vs

-- The `int` that the vector holds for a line.
abbrev pub stored : (Bytes → ℕ) → Bytes → ℤ
stored value l = as_int (pos (value l))
