-- ===== src/Prelude/Sets.antt =====
-- Lists of addresses: membership as a test, distinctness, removal; and maps with one value changed.
use Prim.Native.Nat.{ℕ, ◌+◌}
use mathlib.Core.Path.{◌≡◌, refl}
use mathlib.Core.Logic.{◌≢◌}
use mathlib.Core.Bool.{Bool, true, false, ◌||◌}
use mathlib.Core.List.{List, [], ◌∷◌}
use native.Mathlib.Omega.{arith}
use pyramid.Prelude.Tests.{◌==◌, if◌then◌else◌}
use pyramid.Prelude.Lists.{length}

abbrev pub update {ℓ} : {A : Type ℓ} → (ℕ → A) → ℕ → A → ℕ → A
update f a v b = if b == a then v else f b

abbrev pub has : ℕ → List ℕ → Bool
has a [] = false
has a (x ∷ xs) = (a == x) || has a xs

abbrev pub Distinct : List ℕ → Type 0
Distinct [] = Unit
Distinct (x ∷ xs) = (has x xs ≡ false) × Distinct xs

abbrev pub remove : ℕ → List ℕ → List ℕ
remove a [] = []
remove a (x ∷ xs) = if x == a then xs else x ∷ remove a xs

pub has-remove : (a x : ℕ) (xs : List ℕ) → has a xs ≡ false → has a (remove x xs) ≡ false
has-remove a x [] h = refl
has-remove a x (y ∷ ys) h = ground (arith, has-remove a x ys)

pub Distinct-remove : (x : ℕ) (xs : List ℕ) → Distinct xs → Distinct (remove x xs)
Distinct-remove x [] d = tt
Distinct-remove x (y ∷ ys) d = ground (arith, Distinct-remove x ys d.1, has-remove y x ys)

pub has-remove_self : (x : ℕ) (xs : List ℕ) → Distinct xs → has x (remove x xs) ≡ false
has-remove_self x [] d = refl
has-remove_self x (y ∷ ys) d = ground (arith, has-remove_self x ys d.1)

pub length-remove : (x : ℕ) (xs : List ℕ) → has x xs ≡ true → length xs ≡ length (remove x xs) + 1
length-remove x (y ∷ ys) h = ground (arith, length-remove x ys)
length-remove x [] h = ground arith

pub has_of_remove : (a x : ℕ) (xs : List ℕ) → has a (remove x xs) ≡ true → has a xs ≡ true
has_of_remove a x [] h = h
has_of_remove a x (y ∷ ys) h = ground (arith, has_of_remove a x ys)

pub has-remove_ne : (a x : ℕ) (xs : List ℕ) → a ≢ x → has a (remove x xs) ≡ has a xs
has-remove_ne a x [] h = refl
has-remove_ne a x (y ∷ ys) h = ground (arith, has-remove_ne a x ys h)

pub has-cons_self : (x : ℕ) (xs : List ℕ) → has x (x ∷ xs) ≡ true
has-cons_self x xs = ground arith

pub has-cons_of_has : (a x : ℕ) (xs : List ℕ) → has a xs ≡ true → has a (x ∷ xs) ≡ true
has-cons_of_has a x xs h = ground arith
