-- ===== src/Wire/Laws.antt =====
-- What was stored in network order is read back, and where stores and reads succeed.
use pyramid.Prelude.{
  ℕ, zero, suc, ◌+◌, ◌/◌, ◌%◌, ◌<◌, ◌≡◌, ◌≢◌, refl, ap, [], ◌∷◌, ◌++◌, arith, length, All,
}
use pyramid.Wire.{
  Run, out_of_fuel, exit, ok, fault, ◌>>=◌, Bytes, htons, htonl, word16, word32, load32, advance,
  fetch, overlay, store, c_string,
}

pub bind_assoc {ℓ κ μ} :
    {A : Type ℓ} {B : Type κ} {C : Type μ} (m : Run A) (f : A → Run B) (g : B → Run C)
    → ((m >>= f) >>= g) ≡ (m >>= λ a. f a >>= g)
bind_assoc (ok a) f g = refl
bind_assoc fault f g = refl
bind_assoc out_of_fuel f g = refl
bind_assoc exit f g = refl

pub bind-eq-ok {ℓ κ} :
    {A : Type ℓ} {B : Type κ} (m : Run A) (f : A → Run B) {b : B}
    → (m >>= f) ≡ ok b
    → (a : A) × (m ≡ ok a) × (f a ≡ ok b)
bind-eq-ok (ok a) f h = (a, refl, h)
bind-eq-ok fault f h = cc
bind-eq-ok out_of_fuel f h = cc
bind-eq-ok exit f h = cc

pub bind-ok {ℓ κ} :
    {A : Type ℓ} {B : Type κ} (m : Run A) (f : A → Run B) → (m >>= f) ≡ ((m >>= λ a. ok a) >>= f)
bind-ok (ok a) f = refl
bind-ok fault f = refl
bind-ok out_of_fuel f = refl
bind-ok exit f = refl

-- What follows a computation only has to agree on what the computation gives.
pub bind-cong {ℓ κ} :
    {A : Type ℓ} {B : Type κ} (m : Run A) (f g : A → Run B)
    → ((a : A) → m ≡ ok a → f a ≡ g a)
    → (m >>= f) ≡ (m >>= g)
bind-cong (ok a) f g h = h a refl
bind-cong fault f g h = refl
bind-cong out_of_fuel f g h = refl
bind-cong exit f g h = refl

-- A number in network order.
abbrev pub be16 : ℕ → Bytes
be16 x = ((x / 256) % 256) ∷ (x % 256) ∷ []

abbrev pub be32 : ℕ → Bytes
be32 x = ((x / 16777216) % 256) ∷ ((x / 65536) % 256) ∷ ((x / 256) % 256) ∷ (x % 256) ∷ []

pub word16-htons : (x : ℕ) → word16 (htons x) ≡ be16 x
unfolding htons
word16-htons x = ground arith

pub word32-htonl : (x : ℕ) → word32 (htonl x) ≡ be32 x
unfolding htonl
word32-htonl x = ground arith

pub word32-htons : (x : ℕ) → word32 (htons x) ≡ be16 x ++ 0 ∷ 0 ∷ []
unfolding htons
word32-htons x = ground arith

-- A word in network order is read with its bytes swapped, and the swap undone.
pub load32-be32 : (x : ℕ) (p : Bytes) → load32 (be32 x ++ p) ≡ ok (htonl x)
unfolding htonl load32
load32-be32 x p = ap ok (omega arith)

pub htonl-htonl : (x : ℕ) → x < 4294967296 → htonl (htonl x) ≡ x
unfolding htonl
htonl-htonl x h = ground arith

pub advance-append : (xs p : Bytes) → advance (length xs) (xs ++ p) ≡ ok p
unfolding advance
advance-append [] p = refl
advance-append (x ∷ xs) p = advance-append xs p

pub fetch-append : (xs p : Bytes) → fetch (length xs) (xs ++ p) ≡ ok xs
unfolding fetch
fetch-append [] p = refl
fetch-append (x ∷ xs) p = rw (fetch-append xs p)

overlay-append :
    (old new back : Bytes) → length new ≡ length old → overlay (old ++ back) new ≡ ok (new ++ back)
unfolding overlay
overlay-append [] [] back e = refl
overlay-append [] (x ∷ new) back e = absurd (omega arith)
overlay-append (b ∷ old) [] back e = absurd (omega arith)
overlay-append (b ∷ old) (x ∷ new) back e = rw (overlay-append old new back (omega arith))

-- A store inside the array replaces exactly the bytes it covers.
pub store-append :
    (front old new back : Bytes)
    → length new ≡ length old
    → store (front ++ (old ++ back)) (length front) new ≡ ok (front ++ (new ++ back))
unfolding store
store-append [] old new back e = overlay-append old new back e
store-append (b ∷ front) old new back e = rw (store-append front old new back e)

overlay-fault : (p xs : Bytes) → length p < length xs → overlay p xs ≡ fault
unfolding overlay
overlay-fault p [] h = absurd (omega arith)
overlay-fault [] (x ∷ xs) h = refl
overlay-fault (b ∷ p) (x ∷ xs) h = rw (overlay-fault p xs (omega arith))

pub store-fault :
    (p : Bytes) (n : ℕ) (xs : Bytes) → length p < n + length xs → xs ≢ [] → store p n xs ≡ fault
unfolding store
store-fault p zero xs h ne = overlay-fault p xs (omega arith)
store-fault [] (suc n) xs h ne = refl
store-fault (b ∷ p) (suc n) xs h ne = rw (store-fault p n xs (omega arith) ne)

-- No byte of the list is NUL.
abbrev pub NulFree : Bytes → Type 0
NulFree = All (λ b. b ≢ 0)

pub c_string-append : (xs p : Bytes) → NulFree xs → c_string (xs ++ (0 ∷ p)) ≡ xs
unfolding c_string
c_string-append [] p h = refl
c_string-append (x ∷ xs) p h = ground (arith, c_string-append xs p h.1)

pub c_string-NulFree : (xs : Bytes) → NulFree xs → c_string xs ≡ xs
unfolding c_string
c_string-NulFree [] h = refl
c_string-NulFree (x ∷ xs) h = ground (arith, c_string-NulFree xs h.1)
