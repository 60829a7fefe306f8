-- ===== src/Groups/Members.antt =====
-- Which nodes are in which group, and what the removal of nodes makes of it.
use pyramid.Prelude.{
  ℕ, ◌≤◌, ◌≡◌, ◌≢◌, inl, inr, refl, sym, ap, subst, ◌∙◌, Bool, true, false, some, List, [], ◌∷◌,
  arith, if◌then◌else◌, Bool-cases, update, has, remove, length, has-remove_self, has_of_remove,
  length-remove,
}
use pyramid.Wire.{ok}
use native.Mathlib.Decide.{ℕ_discrete}
use pyramid.Links.{Links, deref}
use pyramid.Links.Chain.{Leads-frame}
use pyramid.Links.Lists.{IsList, unlinked, unlink-IsList, deref-ok, ne_zero}
use pyramid.Groups.{Groups, server_get_client_gid_head, group_links, put_links, decrement, del_node}

-- `members i` are the nodes of group `i`, in list order: a well-formed doubly linked list of
-- allocated nodes that carry the group's number, counted by `tc`, and at most 255.
pub record IsGroups (g : Groups) (members : ℕ → List ℕ) : Type 0 where
  pub lists : (i : ℕ) → IsList g.cg_live (group_links g i) (members i)
  pub counted : (i : ℕ) → g.tc i ≡ length (members i)
  pub bounded : (i : ℕ) → length (members i) ≤ 255
  pub tagged : (i a : ℕ) → has a (members i) ≡ true → server_get_client_gid_head (g.gid a) ≡ some i

-- `g'` is `g` with the nodes `xs` freed; what the nodes hold besides their links is unchanged.
pub record Freed (xs : List ℕ) (g g' : Groups) : Type 0 where
  pub lives : (a : ℕ) → g'.cg_live a ≡ (if has a xs then false else g.cg_live a)
  pub same_ci : g'.ci ≡ g.ci
  pub same_ncg : g'.ncg ≡ g.ncg
  pub same_gid : g'.gid ≡ g.gid

-- A well-formed list stays so if the links, the head and the liveness of its nodes do.
pub IsList-frame :
    (live live' : ℕ → Bool) (k k' : Links) (xs : List ℕ)
    → ((a : ℕ)
        → has a xs ≡ true
        → (k'.next a ≡ k.next a) × (k'.prev a ≡ k.prev a) × (live' a ≡ live a))
    → k'.head ≡ k.head
    → IsList live k xs
    → IsList live' k' xs
IsList-frame live live' k k' xs same e is = record {
  leads = rw e (
      Leads-frame k.next k.prev k'.next k'.prev 0 k.head xs (λ a i. ((same a i).0, (same a i).1))
        is.leads);
  distinct = is.distinct;
  alive = λ a i. (same a i).2 ∙ is.alive a i;
}

pub remove_absent : (a : ℕ) (xs : List ℕ) → has a xs ≡ false → remove a xs ≡ xs
remove_absent a [] h = refl
remove_absent a (x ∷ xs) h = ground (arith, remove_absent a xs)

module _ {g : Groups} {members : ℕ → List ℕ} (is : IsGroups g members) where
  -- A node is in one group only.
  pub one_group : (i j a : ℕ) → has a (members i) ≡ true → has a (members j) ≡ true → i ≡ j
  one_group i j a m m' = ground (arith, is.tagged i a, is.tagged j a)

  pub absent_elsewhere : (i j a : ℕ) → has a (members i) ≡ true → i ≢ j → has a (members j) ≡ false
  absent_elsewhere i j a m ne = ground (arith, one_group i j a)

  module _ (i x : ℕ) (m : has x (members i) ≡ true) where
    removed : Groups
    removed =
        let k = unlinked g.cg_live x (group_links g i) (members i) (is.lists i) m in
        let g1 = put_links g i k in
        record g1 { tc = update g1.tc i (decrement (g1.tc i)); cg_live = update g1.cg_live x false }

    del_node-ok : del_node x (some i) g ≡ ok removed
    unfolding del_node removed
    del_node-ok = rw ((unlink-IsList g.cg_live x (group_links g i) (members i) (is.lists i) m).0)

    removed-here : IsList removed.cg_live (group_links removed i) (remove x (members i))
    unfolding removed
    removed-here =
        let (_, out, _) = unlink-IsList g.cg_live x (group_links g i) (members i) (is.lists i) m in
        IsList-frame g.cg_live _ _ (group_links removed i) (remove x (members i))
          (λ a h. (refl, refl, ground (arith, has-remove_self x (members i) (is.lists i).distinct)))
          (ground arith) out

    removed-there :
        (j : ℕ) → i ≢ j → IsList removed.cg_live (group_links removed j) (remove x (members j))
    unfolding removed
    removed-there j ne =
        let (_, _, same) = unlink-IsList g.cg_live x (group_links g i) (members i) (is.lists i) m in
        let out : has x (members j) ≡ false = absent_elsewhere i j x m ne in
        rw (remove_absent x (members j) out) (
          IsList-frame g.cg_live _ (group_links g j) (group_links removed j) (members j)
            (λ a h.
              let apart : has a (members i) ≡ false = absent_elsewhere j i a h (λ e. ne (sym e)) in
              ((same a apart).0, (same a apart).1, ground arith))
            (ground arith) (is.lists j))

    removed-lists : (j : ℕ) → IsList removed.cg_live (group_links removed j) (remove x (members j))
    removed-lists j = elim (ℕ_discrete i j) [
      | yes e ↦
          subst (λ j'. IsList removed.cg_live (group_links removed j') (remove x (members j'))) e
            removed-here
      | no ne ↦ removed-there j ne
    ]

    removed-counted : (j : ℕ) → removed.tc j ≡ length (remove x (members j))
    unfolding removed
    removed-counted j = elim (ℕ_discrete i j) [
      | yes e ↦
          ground (arith, is.counted j, is.bounded j, length-remove x (members j), ap members e)
      | no ne ↦
          rw (remove_absent x (members j) (absent_elsewhere i j x m ne))
            (ground (arith, is.counted j))
    ]

    removed-bounded : (j : ℕ) → length (remove x (members j)) ≤ 255
    removed-bounded j = elim (Bool-cases (has x (members j))) [
      | inl h ↦ omega (arith, length-remove x (members j) h, is.bounded j)
      | inr out ↦ rw (remove_absent x (members j) out) (is.bounded j)
    ]

    removed-tagged :
        (j a : ℕ)
        → has a (remove x (members j)) ≡ true
        → server_get_client_gid_head (removed.gid a) ≡ some j
    unfolding removed
    removed-tagged j a h = is.tagged j a (has_of_remove a x (members j) h)

    removed-Freed : Freed (x ∷ []) g removed
    unfolding removed
    removed-Freed = record {
      lives = λ a. ground arith;
      same_ci = refl;
      same_ncg = refl;
      same_gid = refl;
    }

    member_ne_zero : x ≢ 0
    member_ne_zero = ne_zero g.cg_live x (group_links g i) (members i) (is.lists i) m x m

    -- Deleting a node of a group takes it out of the group's list and frees it.
    pub del_node-IsGroups :
        (g' : Groups) × (deref g.cg_live x ≡ ok tt)
        × (del_node x (server_get_client_gid_head (g.gid x)) g ≡ ok g')
        × IsGroups g' (λ j. remove x (members j))
        × Freed (x ∷ []) g g'
    del_node-IsGroups = (
      removed,
      deref-ok g.cg_live x member_ne_zero ((is.lists i).alive x m),
      rw (is.tagged i x m) del_node-ok,
      record {
        lists = removed-lists;
        counted = removed-counted;
        bounded = removed-bounded;
        tagged = removed-tagged;
      },
      removed-Freed,
    )
