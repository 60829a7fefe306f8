-- ===== src/Server/Entries.antt =====
-- The texts of the two lists of server/src/server_helper.c are entries that fit the buffer.
use pyramid.Prelude.{
  IsInt, ℕ, zero, suc, ◌+◌, ◌*◌, ◌/◌, ◌%◌, ◌<◌, ◌≤◌, ◌≡◌, ◌≢◌, true, false, refl, inl, inr, [], ◌∷◌,
  ◌++◌, arith, length, length-append, All, All-append, ltb, has, Bool-cases, ℤ, pos, negsuc,
}
use pyramid.Wire.{Bytes}
use pyramid.Wire.Laws.{NulFree}
use pyramid.Jobs.Assign.{decimal, digits, show_int}
use pyramid.Server.Display.{client_entry, group_entry}
use pyramid.Server.Chunks.{IsEntry}

digits-All :
    (Q : ℕ → Type 0) → ((d : ℕ) → d < 10 → Q (48 + d)) → (fuel n : ℕ) → All Q (digits fuel n)
unfolding digits
digits-All Q h zero n = tt
digits-All Q h (suc fuel) n = elim (Bool-cases (ltb n 10)) [
  | inl e ↦ rw e (h n (ground arith), tt)
  | inr e ↦ rw e (
      All-append Q (digits fuel (n / 10)) _ (digits-All Q h fuel (n / 10))
        (h (n % 10) (omega arith), tt))
]

-- The magnitude of an integer.
abbrev pub magnitude : ℤ → ℕ
magnitude (pos n) = n
magnitude (negsuc n) = suc n

pub IsInt-magnitude : (v : ℤ) → IsInt v → magnitude v < 18446744073709551616
IsInt-magnitude (pos n) h = ground arith
IsInt-magnitude (negsuc n) h = ground arith

-- 10 ^ k
abbrev ten : ℕ → ℕ
ten zero = 1
ten (suc k) = 10 * ten k

length-digits : (fuel k n : ℕ) → n < ten (suc k) → length (digits fuel n) ≤ suc k
unfolding digits
length-digits zero k n h = omega arith
length-digits (suc fuel) zero n h =
    let small : ltb n 10 ≡ true = ground arith in rw small (omega arith)
length-digits (suc fuel) (suc k) n h = elim (Bool-cases (ltb n 10)) [
  | inl e ↦ rw e (omega arith)
  | inr e ↦
      let rest : n / 10 < ten (suc k) = omega arith in
      let more = length-append (digits fuel (n / 10)) ((48 + n % 10) ∷ []) in
      rw e (omega (arith, more, length-digits fuel k (n / 10) rest))
]

some_digit : (fuel n : ℕ) → 0 < length (digits (suc fuel) n)
unfolding digits
some_digit fuel n = elim (Bool-cases (ltb n 10)) [
  | inl e ↦ rw e (omega arith)
  | inr e ↦ rw e (omega (arith, length-append (digits fuel (n / 10)) ((48 + n % 10) ∷ [])))
]

-- A 32-bit number has ten digits at most.
length-decimal : (n : ℕ) → n < 4294967296 → (0 < length (decimal n)) × (length (decimal n) ≤ 10)
unfolding decimal
length-decimal n h = (some_digit n n, length-digits (suc n) 9 n (omega arith))

decimal-NulFree : (n : ℕ) → NulFree (decimal n)
unfolding decimal
decimal-NulFree n = digits-All (λ b. b ≢ 0) (λ d h z. omega (arith, z)) (suc n) n

-- What is printed for a number of 64 bits.
pub show_int-length :
    (n : ℤ)
    → magnitude n < 18446744073709551616
    → (0 < length (show_int n)) × (length (show_int n) ≤ 21)
unfolding show_int decimal
show_int-length (pos n) h =
    (some_digit n n, omega (arith, length-digits (suc n) 19 n (omega (arith, h))))
show_int-length (negsuc n) h =
    (omega arith, omega (arith, length-digits (suc (suc n)) 19 (suc n) (omega (arith, h))))

pub show_int-All :
    (Q : ℕ → Type 0) → ((d : ℕ) → d < 10 → Q (48 + d)) → Q 45 → (n : ℤ) → All Q (show_int n)
unfolding show_int decimal
show_int-All Q h minus (pos n) = digits-All Q h (suc n) n
show_int-All Q h minus (negsuc n) = (minus, digits-All Q h (suc (suc n)) (suc n))

pub show_int-NulFree : (n : ℤ) → NulFree (show_int n)
show_int-NulFree n = show_int-All (λ b. b ≢ 0) (λ d h z. omega (arith, z)) (λ z. omega (arith, z)) n

pub NulFree-text : (p : Bytes) → has 0 p ≡ false → NulFree p
NulFree-text [] h = tt
NulFree-text (c ∷ p) h = (λ z. absurd (ground arith), NulFree-text p (ground arith))

pub client_entry-IsEntry : (cfd : ℕ) → cfd < 4294967296 → IsEntry (client_entry cfd)
unfolding client_entry
client_entry-IsEntry cfd h =
    let size = length-append (decimal cfd) (32 ∷ []) in
    let (low, high) = length-decimal cfd h in
    (
      All-append (λ b. b ≢ 0) (decimal cfd) (32 ∷ []) (decimal-NulFree cfd)
          (NulFree-text (32 ∷ []) refl),
      omega arith,
      omega arith,
    )

pub group_entry-IsEntry :
    (gid cfd : ℕ) → gid < 4294967296 → cfd < 4294967296 → IsEntry (group_entry gid cfd)
unfolding group_entry
group_entry-IsEntry gid cfd hg hc =
    let word : Bytes = 10 ∷ b'g' ∷ b'i' ∷ b'd' ∷ 32 ∷ [] in
    let colon : Bytes = 32 ∷ b':' ∷ 32 ∷ [] in
    let back : Bytes = decimal cfd ++ (32 ∷ []) in
    let free : NulFree back =
      All-append (λ b. b ≢ 0) (decimal cfd) (32 ∷ []) (decimal-NulFree cfd)
        (NulFree-text (32 ∷ []) refl) in
    let free' : NulFree (decimal gid ++ (colon ++ back)) =
      All-append (λ b. b ≢ 0) (decimal gid) _ (decimal-NulFree gid)
        (All-append (λ b. b ≢ 0) colon back (NulFree-text colon refl) free) in
    let size = length-append (decimal cfd) (32 ∷ []) in
    let size' = length-append (decimal gid) (colon ++ back) in
    let (low, high) = length-decimal gid hg in
    let (low', high') = length-decimal cfd hc in
    (All-append (λ b. b ≢ 0) word _ (NulFree-text word refl) free', omega arith, omega arith)
