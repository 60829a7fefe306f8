-- ===== src/Wire.antt =====
-- Memory as the C code of common/src/tlv.c and of the receive loops sees it: a pointer into a
-- character array is the list of the bytes from that address to the end of the array. The host is
-- little-endian, as the x86 machines the makefiles build for, so the network-order functions swap
-- bytes. A read or a write outside an array is a `fault`, and a loop that has used up its fuel is
-- `out_of_fuel`. `exit` is the end of the process.
pub mod Laws
use pyramid.Prelude.{
  ℕ, zero, suc, ◌+◌, ◌*◌, ◌/◌, ◌%◌, ◌-◌, Bool, List, [], ◌∷◌, ◌++◌, ◌==◌, ◌<◌, ltb, if◌then◌else◌,
  ℤ, pos, negsuc,
}

pub data Run {ℓ} (A : Type ℓ) : Type ℓ where
  ok : A → Run A
  fault : Run A
  out_of_fuel : Run A
  exit : Run A

infixl 5 ◌>>=◌
abbrev pub ◌>>=◌ {ℓ κ} : {A : Type ℓ} {B : Type κ} → Run A → (A → Run B) → Run B
ok a >>= f = f a
fault >>= f = fault
out_of_fuel >>= f = out_of_fuel
exit >>= f = exit

abbrev pub Bytes : Type 0
Bytes = List ℕ

-- `htons`, which is also `ntohs`: its argument is cut to 16 bits.
unfoldable pub htons : ℕ → ℕ
htons x = (x % 256) * 256 + (x / 256) % 256

-- `htonl`, which is also `ntohl`.
unfoldable pub htonl : ℕ → ℕ
htonl x =
    (x % 256) * 16777216
    + ((x / 256) % 256) * 65536
    + ((x / 65536) % 256) * 256
    + (x / 16777216) % 256

-- The bytes that a store of a 16-bit or 32-bit word leaves in memory.
abbrev pub word16 : ℕ → Bytes
word16 x = (x % 256) ∷ ((x / 256) % 256) ∷ []

abbrev pub word32 : ℕ → Bytes
word32 x = (x % 256) ∷ ((x / 256) % 256) ∷ ((x / 65536) % 256) ∷ ((x / 16777216) % 256) ∷ []

-- `*(uint16_t *)p` and `*(uint32_t *)p`.
unfoldable pub load16 : Bytes → Run ℕ
load16 (a ∷ b ∷ p) = ok (a + 256 * b)
load16 _ = fault

unfoldable pub load32 : Bytes → Run ℕ
load32 (a ∷ b ∷ c ∷ d ∷ p) = ok (a + 256 * b + 65536 * c + 16777216 * d)
load32 _ = fault

-- `p + n` for a read: the pointer may stand at the end of the array, not behind it.
unfoldable pub advance : ℕ → Bytes → Run Bytes
advance zero p = ok p
advance (suc n) [] = fault
advance (suc n) (b ∷ p) = advance n p

-- The `n` bytes at `p`, as `memcpy` reads them.
unfoldable pub fetch : ℕ → Bytes → Run Bytes
fetch zero p = ok []
fetch (suc n) [] = fault
fetch (suc n) (b ∷ p) = do r ← fetch n p; ok (b ∷ r)

-- The bytes `xs` written at the start of `p`.
pub overlay : Bytes → Bytes → Run Bytes
overlay p [] = ok p
overlay [] (x ∷ xs) = fault
overlay (b ∷ p) (x ∷ xs) = do r ← overlay p xs; ok (x ∷ r)

-- The bytes `xs` written at `p + n`.
unfoldable pub store : Bytes → ℕ → Bytes → Run Bytes
unfolding overlay
store p zero xs = overlay p xs
store [] (suc n) xs = fault
store (b ∷ p) (suc n) xs = do r ← store p n xs; ok (b ∷ r)

-- The C string at `p`: the bytes before the first NUL.
pub c_string : Bytes → Bytes
c_string [] = []
c_string (b ∷ p) = if b == 0 then [] else b ∷ c_string p
