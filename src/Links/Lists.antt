-- ===== src/Links/Lists.antt =====
-- `insert_front` and `unlink` on a well-formed list: they do not fault, they put a node in front or
-- take one out, and they touch the links of no node outside the list.
use pyramid.Prelude.{
  ℕ, ◌≡◌, ◌≢◌, ◌⊎◌, inl, inr, refl, Bool, true, false, List, [], ◌∷◌, arith, ◌==◌, if◌then◌else◌,
  Bool-cases, update, has, Distinct, remove, Distinct-remove, has_of_remove,
}
use pyramid.Wire.{ok}
use pyramid.Links.{Links, is_null, deref, insert_front, unlink}
use pyramid.Links.Chain.{
  Leads, Leads-frame, next_in, prev_in, first_prev, zero_out, cut_next, cut_prev, Leads-cut,
}

pub record IsList (live : ℕ → Bool) (k : Links) (xs : List ℕ) : Type 0 where
  pub leads : Leads k.next k.prev 0 k.head xs
  pub distinct : Distinct xs
  pub alive : (a : ℕ) → has a xs ≡ true → live a ≡ true

-- The links of the nodes outside `xs` are the same in both.
abbrev pub SameLinks : List ℕ → Links → Links → Type 0
SameLinks xs k k' = (a : ℕ) → has a xs ≡ false → (k'.next a ≡ k.next a) × (k'.prev a ≡ k.prev a)

module _ (live : ℕ → Bool) where
  pub deref-ok : (a : ℕ) → a ≢ 0 → live a ≡ true → deref live a ≡ ok tt
  unfolding deref
  deref-ok a ne h = ground arith

  module _ (x : ℕ) (k : Links) (xs : List ℕ) (is : IsList live k xs) (m : has x xs ≡ true) where
    abbrev pub unlinked : Links
    unlinked = record {
      next = if is_null (k.prev x) then k.next else update k.next (k.prev x) (k.next x);
      prev = if is_null (k.next x) then k.prev else update k.prev (k.next x) (k.prev x);
      head = if is_null (k.prev x) then k.next x else k.head;
    }

    pub ne_zero : (a : ℕ) → has a xs ≡ true → a ≢ 0
    ne_zero a h = ground (arith, zero_out k.next k.prev 0 k.head xs is.leads)

    prev_alive : (k.prev x == 0 ≡ true) ⊎ ((k.prev x == 0 ≡ false) × (live (k.prev x) ≡ true))
    prev_alive = ground (arith, prev_in k.next k.prev x 0 k.head xs is.leads m, is.alive (k.prev x))

    next_alive : (k.next x == 0 ≡ true) ⊎ ((k.next x == 0 ≡ false) × (live (k.next x) ≡ true))
    next_alive = ground (arith, next_in k.next k.prev x 0 k.head xs is.leads m, is.alive (k.next x))

    unlink-ok : unlink live x k ≡ ok unlinked
    unfolding unlink
    unlink-ok = ground (arith, prev_alive, next_alive, is.alive x m, ne_zero x m)

    unlinked_next : (a : ℕ) → a ≢ 0 → unlinked.next a ≡ cut_next k.next k.prev x a
    unlinked_next a ne = elim (Bool-cases (k.prev x == 0)) [
      | inl e ↦ rw e (ground arith)
      | inr e ↦ rw e
    ]

    unlinked_prev : (a : ℕ) → unlinked.prev a ≡ cut_prev k.next k.prev x a
    unlinked_prev a = elim (Bool-cases (k.next x == 0)) [ inl e ↦ rw e | inr e ↦ rw e ]

    unlinked_head : unlinked.head ≡ (if k.head == x then k.next x else k.head)
    unlinked_head = ground (
      arith,
      prev_in k.next k.prev x 0 k.head xs is.leads m,
      first_prev k.next k.prev x 0 k.head xs is.leads m,
      ne_zero (k.prev x),
    )

    unlink-Leads : Leads unlinked.next unlinked.prev 0 unlinked.head (remove x xs)
    unlink-Leads =
        let cut =
          Leads-cut k.next k.prev x 0 k.head xs m (zero_out k.next k.prev 0 k.head xs is.leads)
            is.distinct is.leads in
        Leads-frame (cut_next k.next k.prev x) (cut_prev k.next k.prev x) unlinked.next
          unlinked.prev 0 unlinked.head (remove x xs)
          (λ a i. (unlinked_next a (ne_zero a (has_of_remove a x xs i)), unlinked_prev a))
          (rw unlinked_head cut)

    unlink-SameLinks : SameLinks xs k unlinked
    unlink-SameLinks a out = (
      elim (Bool-cases (k.prev x == 0)) [
        | inl e ↦ rw e
        | inr e ↦ rw e (ground (arith, prev_in k.next k.prev x 0 k.head xs is.leads m))
      ],
      elim (Bool-cases (k.next x == 0)) [
        | inl e ↦ rw e
        | inr e ↦ rw e (ground (arith, next_in k.next k.prev x 0 k.head xs is.leads m))
      ],
    )

    -- Removal takes the node out of the list, and nothing else.
    pub unlink-IsList :
        (unlink live x k ≡ ok unlinked)
        × IsList live unlinked (remove x xs)
        × SameLinks xs k unlinked
    unlink-IsList = (
      unlink-ok,
      record {
        leads = unlink-Leads;
        distinct = Distinct-remove x xs is.distinct;
        alive = λ a i. is.alive a (has_of_remove a x xs i);
      },
      unlink-SameLinks,
    )

  abbrev pub inserted : ℕ → Links → Links
  inserted x k = record {
    next = update k.next x k.head;
    prev = if is_null k.head then update k.prev x 0 else update (update k.prev x 0) k.head x;
    head = x;
  }

  module _ (x : ℕ) (k : Links) (ne : x ≢ 0) (h : live x ≡ true) where
    inserted-Leads :
        (xs : List ℕ)
        → has x xs ≡ false
        → IsList live k xs
        → Leads (inserted x k).next (inserted x k).prev 0 x (x ∷ xs)
    inserted-Leads [] out is =
        let null : is_null k.head ≡ true = ground (arith, is.leads) in
        rw null (refl, ne, ground arith, ground (arith, is.leads))
    inserted-Leads (y ∷ ys) out is =
        let (first, ne_y, back, rest) = is.leads in
        let some_head : is_null k.head ≡ false = ground arith in
        let onward : update k.next x k.head x ≡ y = ground arith in
        let y_next : update k.next x k.head y ≡ k.next y = ground arith in
        let no_prev : (inserted x k).prev x ≡ 0 = rw some_head (ground arith) in
        let y_prev : (inserted x k).prev y ≡ x = rw some_head (ground arith) in
        let y_prev_next : (inserted x k).next y ≡ k.next y = y_next in
        (
          refl,
          ne,
          no_prev,
          (
            onward,
            ne_y,
            y_prev,
            rw y_prev_next (
                Leads-frame k.next k.prev (inserted x k).next (inserted x k).prev y (k.next y) ys
                  (λ a i. (ground arith, rw some_head (ground (arith, is.distinct)))) rest),
          ),
        )

    insert-ok : (xs : List ℕ) → IsList live k xs → insert_front live x k ≡ ok (inserted x k)
    unfolding insert_front
    insert-ok [] is = ground (arith, is.leads)
    insert-ok (y ∷ ys) is = ground (arith, is.leads, is.alive y)

    insert-SameLinks : (xs : List ℕ) → IsList live k xs → SameLinks (x ∷ xs) k (inserted x k)
    insert-SameLinks [] is a out =
        let null : is_null k.head ≡ true = ground (arith, is.leads) in
        (ground arith, rw null (ground arith))
    insert-SameLinks (y ∷ ys) is a out =
        let some_head : is_null k.head ≡ false = ground (arith, is.leads) in
        (ground arith, rw some_head (ground (arith, is.leads)))

    -- Insertion puts a new node in front, and touches the links of no other list.
    pub insert-IsList :
        (xs : List ℕ)
        → has x xs ≡ false
        → IsList live k xs
        → (insert_front live x k ≡ ok (inserted x k))
          × IsList live (inserted x k) (x ∷ xs)
          × SameLinks (x ∷ xs) k (inserted x k)
    insert-IsList xs out is = (
      insert-ok xs is,
      record {
        leads = inserted-Leads xs out is;
        distinct = (out, is.distinct);
        alive = λ a i. ground (arith, is.alive a);
      },
      insert-SameLinks xs is,
    )
