-- ===== src/Worker/Texts.antt =====
-- The strings and files of client/src/client.c: what is copied, and what is read back.
use pyramid.Prelude.{
  ℕ, zero, suc, ◌<◌, ◌≡◌, refl, ap, true, false, some, [], ◌∷◌, ◌++◌, arith, length, take, ◌==◌,
  replicate, ℤ,
}
use pyramid.Wire.{ok, Bytes}
use pyramid.Wire.Laws.{NulFree}
use pyramid.Cli.{strings_equal}
use pyramid.Jobs.Assign.{show_int}
use pyramid.Central.{text}
use pyramid.Server.Chunks.{text-append}
use pyramid.Worker.{Files, first_chars, copied, write_file}

first_chars-append :
    (n : ℕ) (p more : Bytes) → NulFree p → length p < n → first_chars n (p ++ (0 ∷ more)) ≡ ok p
unfolding first_chars
first_chars-append zero p more free h = absurd (omega arith)
first_chars-append (suc n) [] more free h = refl
first_chars-append (suc n) (c ∷ p) more (ne, free) h =
    let no : (c == 0) ≡ false = ground arith in
    rw (no, first_chars-append n p more free (omega arith)) refl

take-nul :
    (n : ℕ) (p z : Bytes) → length p < n → (r : Bytes) × (take n (p ++ (0 ∷ z)) ≡ p ++ (0 ∷ r))
take-nul zero p z h = absurd (omega arith)
take-nul (suc n) [] z h = (take n z, refl)
take-nul (suc n) (c ∷ p) z h =
    let (r, e) = take-nul n p z (omega arith) in (r, ap (λ (l : Bytes). c ∷ l) e)

-- A path of less than 100 characters is copied with a NUL behind it.
pub copied-text :
    (p more : Bytes)
    → NulFree p
    → length p < 100
    → (b : Bytes) × (copied (p ++ (0 ∷ more)) ≡ ok b) × (text b ≡ ok p)
unfolding copied
copied-text p more free h =
    let (r, e) = take-nul 100 p (replicate 99 0) h in
    (p ++ (0 ∷ r), rw (first_chars-append 100 p more free h, e) refl, text-append p r free)

strings_equal_self : (a : Bytes) → strings_equal a a ≡ true
unfolding strings_equal
strings_equal_self [] = refl
strings_equal_self (c ∷ a) =
    let same : (c == c) ≡ true = ground arith in rw (same, strings_equal_self a) refl

pub write_file-read :
    (name : Bytes) (max : ℤ) (files : Files)
    → write_file name (some max) files name ≡ some ((show_int max ++ (10 ∷ [])) ∷ [])
unfolding write_file
write_file-read name max files = rw (strings_equal_self name) refl
