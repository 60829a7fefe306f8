-- ===== src/Jobs/Parts.antt =====
-- The file names that `assignJob` and its companions in server/src/jobs.c send for the parts.
use pyramid.Prelude.{ℕ, ◌+◌, ◌/◌, ◌%◌, ◌<◌, ◌≡◌, refl, true, [], ◌∷◌, arith, ltb}
use pyramid.Jobs.Assign.{digits, decimal, part_number}

decimal-digit : (n : ℕ) → n < 10 → decimal n ≡ (48 + n) ∷ []
unfolding decimal digits
decimal-digit n h = let small : ltb n 10 ≡ true = ground arith in rw small refl

-- The number of a part below 100 is sent as three digits, which determine it.
pub part_number-three : (i : ℕ) → i < 100 → part_number i ≡ 48 ∷ (48 + i / 10) ∷ (48 + i % 10) ∷ []
unfolding part_number
part_number-three i h =
    let hundreds : i / 100 ≡ 0 = omega arith in
    rw (hundreds, decimal-digit (i / 10) (omega arith), decimal-digit (i % 10) (omega arith)) refl
