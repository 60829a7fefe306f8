-- ===== src/Links/Chain.antt =====
-- What the link fields of a well-formed list look like, and that insertion and removal keep it so.
use pyramid.Prelude.{
  ℕ, ◌≡◌, ◌≢◌, ◌⊎◌, inl, inr, refl, subst, ◌∙◌, true, false, List, [], ◌∷◌, arith, ◌==◌,
  if◌then◌else◌, Bool-cases, update, has, Distinct, remove,
}

-- From `h`, with `l` before it, the links lead through the nodes `xs` and end with NULL; the
-- backward link of each node leads to the one before it.
abbrev pub Leads : (ℕ → ℕ) → (ℕ → ℕ) → ℕ → ℕ → List ℕ → Type 0
Leads n p l h [] = h ≡ 0
Leads n p l h (x ∷ xs) = (h ≡ x) × (x ≢ 0) × (p x ≡ l) × Leads n p x (n x) xs

module _ (n p : ℕ → ℕ) where
  -- A change of links outside the list is not noticed.
  pub Leads-frame :
      (n' p' : ℕ → ℕ) (l h : ℕ) (xs : List ℕ)
      → ((a : ℕ) → has a xs ≡ true → (n' a ≡ n a) × (p' a ≡ p a))
      → Leads n p l h xs
      → Leads n' p' l h xs
  Leads-frame n' p' l h [] same c = c
  Leads-frame n' p' l h (x ∷ xs) same (e, ne, b, c) =
      let here : (n' x ≡ n x) × (p' x ≡ p x) = same x (ground arith) in
      (e, ne, here.1 ∙ b, rw here.0 (Leads-frame n' p' x (n x) xs (λ a i. same a (ground arith)) c))

  pub next_in :
      (x l h : ℕ) (xs : List ℕ)
      → Leads n p l h xs
      → has x xs ≡ true
      → (n x ≡ 0) ⊎ (has (n x) xs ≡ true)
  next_in x l h [] c m = ground arith
  next_in x l h (y ∷ []) (e, ne, b, c) m = ground arith
  next_in x l h (y ∷ z ∷ zs) (e, ne, b, c) m = ground (arith, next_in x y (n y) (z ∷ zs) c)

  pub prev_in :
      (x l h : ℕ) (xs : List ℕ)
      → Leads n p l h xs
      → has x xs ≡ true
      → ((h ≡ x) × (p x ≡ l)) ⊎ (has (p x) xs ≡ true)
  prev_in x l h [] c m = ground arith
  prev_in x l h (y ∷ ys) (e, ne, b, c) m = ground (arith, prev_in x y (n y) ys c)

  pub first_prev : (x l h : ℕ) (xs : List ℕ) → Leads n p l h xs → has x xs ≡ true → h ≡ x → p x ≡ l
  first_prev x l h [] c m e = absurd (ground arith)
  first_prev x l h (y ∷ ys) c m e = ground arith

  pub zero_out : (l h : ℕ) (xs : List ℕ) → Leads n p l h xs → has 0 xs ≡ false
  zero_out l h [] c = refl
  zero_out l h (y ∷ ys) (e, ne, b, c) = ground (arith, zero_out y (n y) ys c)

-- The link fields once `x` has been cut out.
abbrev pub cut_next : (ℕ → ℕ) → (ℕ → ℕ) → ℕ → ℕ → ℕ
cut_next n p x = update n (p x) (n x)

abbrev pub cut_prev : (ℕ → ℕ) → (ℕ → ℕ) → ℕ → ℕ → ℕ
cut_prev n p x a = if n x == 0 then p a else update p (n x) (p x) a

module _ (n p : ℕ → ℕ) (x : ℕ) where
  -- Behind a removed first node.
  Leads-cut_first :
      (n' : ℕ → ℕ) (l : ℕ) (xs : List ℕ)
      → has x xs ≡ false
      → p x ≡ l
      → ((a : ℕ) → has a xs ≡ true → n' a ≡ n a)
      → Distinct xs
      → Leads n p x (n x) xs
      → Leads n' (cut_prev n p x) l (n x) xs
  Leads-cut_first n' l [] out b same d c = c
  Leads-cut_first n' l (y ∷ ys) out b same d (e, ne, b', c) =
      let n_y : n' y ≡ n y = same y (ground arith) in
      (
        e,
        ne,
        ground arith,
        rw n_y (
            Leads-frame n p n' (cut_prev n p x) y (n y) ys
              (λ a i. (same a (ground arith), ground arith)) c),
      )

  pub Leads-cut :
      (l h : ℕ) (xs : List ℕ)
      → has x xs ≡ true
      → has l xs ≡ false
      → Distinct xs
      → Leads n p l h xs
      → Leads (cut_next n p x) (cut_prev n p x) l (if h == x then n x else h) (remove x xs)
  Leads-cut l h [] m out d c = ground arith
  Leads-cut l h (y ∷ ys) m out (fresh, d) (e, ne, b, c) = elim (Bool-cases (y == x)) [
    | inl hit ↦
        let same : y ≡ x = ground arith in
        rw (e, hit)
          (Leads-cut_first (cut_next n p x) l ys (rw same at fresh) (rw same at b) (ground arith) d
            (subst (λ z. Leads n p z (n z) ys) same c))
    | inr miss ↦
        let m' : has x ys ≡ true = ground arith in
        let kept : cut_prev n p x y ≡ l = ground (arith, next_in n p x y (n y) ys c m') in
        let onto : cut_next n p x y ≡ (if n y == x then n x else n y) =
          ground (arith, prev_in n p x y (n y) ys c m', first_prev n p x y (n y) ys c m') in
        rw (e, miss) (refl, ne, kept, rw onto (Leads-cut y (n y) ys m' fresh d c))
  ]
