-- ===== src/Registry/Removal.antt =====
-- `server_del_one_client_fd` of server/src/groups.c keeps the registry well-formed.
use pyramid.Prelude.{
  ℕ, ◌%◌, ◌<◌, ◌≡◌, ◌≢◌, ◌⊎◌, inl, inr, refl, sym, ap, subst, ◌∙◌, Bool, true, false, List, arith,
  has, has_of_remove, has-remove_ne, has-remove_self, remove, length, length-remove, Bool-cases,
  update,
}
use native.Mathlib.Decide.{ℕ_discrete}
use pyramid.Wire.{Run, ok}
use pyramid.Links.{Links, is_null, unlink}
use pyramid.Links.Lists.{IsList, SameLinks, unlinked, unlink-IsList, deref-ok, ne_zero}
use pyramid.Groups.{Groups, decrement, server_del_client_from_groups}
use pyramid.Groups.Members.{IsGroups, Freed, IsList-frame, remove_absent}
use pyramid.Groups.Leaving.{InGroups, remove_all, server_del_client_from_groups_lem}
use pyramid.Registry.{
  Clients, get_hash, bucket_links, put_bucket, server_search_client_fd,
  server_destroy_client_info_node, del_client, server_get_client_info_head,
  server_del_one_client_fd,
}
use pyramid.Registry.Invariant.{
  IsRegistry, has_of_remove_all, has-remove_all, removed_all, search_from-Finds,
}

module _ {c : Clients} {buckets members chain : ℕ → List ℕ}
    (is : IsRegistry c buckets members chain) (f i x : ℕ) (m : has x (buckets i) ≡ true)
    (fuel : length (chain x) < f) where
  -- A client is in one bucket only.
  one_bucket : (j a : ℕ) → has a (buckets i) ≡ true → i ≢ j → has a (buckets j) ≡ false
  one_bucket j a here ne = ground (arith, is.placed i a here, is.placed j a)

  left_groups :
      (g : Groups) × (server_del_client_from_groups f (c.cg x) c.groups ≡ ok g)
      × IsGroups g (λ j. remove_all (chain x) (members j))
      × Freed (chain x) c.groups g
  left_groups =
      server_del_client_from_groups_lem f (c.cg x) (chain x) c.groups members is.groups
        (is.chained i x m) (is.distinct i x m) (is.within i x m) fuel

  abbrev g : Groups
  g = left_groups.0

  abbrev cut : Links
  cut = unlinked c.ci_live x (bucket_links c i) (buckets i) (is.lists i) m

  cut_out :
      (unlink c.ci_live x (bucket_links c i) ≡ ok cut)
      × IsList c.ci_live cut (remove x (buckets i))
      × SameLinks (buckets i) (bucket_links c i) cut
  cut_out = unlink-IsList c.ci_live x (bucket_links c i) (buckets i) (is.lists i) m

  -- The registry without the client.
  pub without : Clients
  unfolding server_destroy_client_info_node
  without =
      let s1 = put_bucket (record c { groups = g }) i cut in
      server_destroy_client_info_node x
        (record s1 { counts = update s1.counts i (decrement (s1.counts i)) })

  x_ne_zero : x ≢ 0
  x_ne_zero = ne_zero c.ci_live x (bucket_links c i) (buckets i) (is.lists i) m x m

  del_client-ok : del_client f i x c ≡ ok (true, without)
  unfolding del_client without
  del_client-ok =
      let not_null : is_null x ≡ false = ground (arith, x_ne_zero) in
      rw
        (
          not_null,
          deref-ok c.ci_live x x_ne_zero ((is.lists i).alive x m),
          left_groups.1,
          cut_out.0,
        )
        refl

  without-here : IsList without.ci_live (bucket_links without i) (remove x (buckets i))
  unfolding without
  without-here =
      IsList-frame c.ci_live _ _ (bucket_links without i) (remove x (buckets i))
        (λ a h. (refl, refl, ground (arith, has-remove_self x (buckets i) (is.lists i).distinct)))
        (ground arith) cut_out.1

  without-there :
      (j : ℕ) → i ≢ j → IsList without.ci_live (bucket_links without j) (remove x (buckets j))
  unfolding without
  without-there j ne = rw (remove_absent x (buckets j) (one_bucket j x m ne)) (
      IsList-frame c.ci_live _ (bucket_links c j) (bucket_links without j) (buckets j)
        (λ a h.
          let apart : has a (buckets i) ≡ false = ground (arith, is.placed i a, is.placed j a h) in
          ((cut_out.2 a apart).0, (cut_out.2 a apart).1, ground arith))
        (ground arith) (is.lists j))

  without-lists : (j : ℕ) → IsList without.ci_live (bucket_links without j) (remove x (buckets j))
  without-lists j = elim (ℕ_discrete i j) [
    | yes e ↦
        subst (λ k. IsList without.ci_live (bucket_links without k) (remove x (buckets k))) e
          without-here
    | no ne ↦ without-there j ne
  ]

  without-counted : (j : ℕ) → without.counts j ≡ length (remove x (buckets j)) % 4294967296
  unfolding without
  without-counted j = elim (ℕ_discrete i j) [
    | yes e ↦ ground (arith, is.counted j, length-remove x (buckets j), ap buckets e)
    | no ne ↦ rw (remove_absent x (buckets j) (one_bucket j x m ne)) (ground (arith, is.counted j))
  ]

  -- A node of another client is not one of the removed client's.
  not_removed :
      (k a n : ℕ)
      → has a (remove x (buckets k)) ≡ true
      → has n (chain a) ≡ true
      → has n (chain x) ≡ false
  not_removed k a n h hn = elim (Bool-cases (has n (chain x))) [
    | inl mine ↦
        let same : a ≡ x =
          sym (is.owned k a n (has_of_remove a x (buckets k) h) hn) ∙ is.owned i x n m mine in
        absurd (ground (arith, has-remove_self x (buckets k) (is.lists k).distinct))
    | inr other ↦ other
  ]

  without-within :
      (k a : ℕ)
      → has a (remove x (buckets k)) ≡ true
      → InGroups (λ j. remove_all (chain x) (members j)) (chain a)
  without-within k a h n hn =
      let (j, there) = is.within k a (has_of_remove a x (buckets k) h) n hn in
      (j, has-remove_all n (chain x) (members j) (not_removed k a n h hn) ∙ there)

  without-owner :
      (j n : ℕ)
      → has n (remove_all (chain x) (members j)) ≡ true
      → (k : ℕ) × (has (c.groups.ci n) (remove x (buckets k)) ≡ true)
  without-owner j n h =
      let old : has n (members j) ≡ true = has_of_remove_all n (chain x) (members j) h in
      let not_mine : has n (chain x) ≡ false =
        removed_all n (chain x) (members j) (is.groups.lists j).distinct h in
      let (k, there) = is.owner j n old in
      let other : c.groups.ci n ≢ x = ground (arith, is.member j n old) in
      (k, has-remove_ne (c.groups.ci n) x (buckets k) other ∙ there)

  pub without-IsRegistry :
      IsRegistry without (λ k. remove x (buckets k)) (λ j. remove_all (chain x) (members j)) chain
  unfolding without
  without-IsRegistry =
      let freed : Freed (chain x) c.groups g = left_groups.3 in
      record {
        groups = left_groups.2;
        lists = without-lists;
        counted = without-counted;
        placed = λ k a h. is.placed k a (has_of_remove a x (buckets k) h);
        chained = λ k a h. rw freed.same_ncg (is.chained k a (has_of_remove a x (buckets k) h));
        distinct = λ k a h. is.distinct k a (has_of_remove a x (buckets k) h);
        within = without-within;
        owned =
            λ k a n h hn. rw freed.same_ci (is.owned k a n (has_of_remove a x (buckets k) h) hn);
        owner = λ j n h. rw freed.same_ci (without-owner j n h);
        member =
            λ j n h. rw freed.same_ci (is.member j n (has_of_remove_all n (chain x) (members j) h));
      }

-- What the removal of the client with the descriptor `fd` leaves: the registry as it was, and no client
-- of the bucket has the descriptor; or a registry without one client that had it, whose nodes are in
-- no group.
abbrev pub Leaves :
    Clients → (ℕ → List ℕ) → (ℕ → List ℕ) → (ℕ → List ℕ) → ℕ → Run (Bool × Clients) → Type 0
Leaves c buckets members chain fd r =
    ((r ≡ ok (false, c)) × ((a : ℕ) → has a (buckets (get_hash fd)) ≡ true → c.cfd a ≢ fd))
    ⊎ ((x : ℕ) × (c' : Clients) × (r ≡ ok (true, c'))
        × (has x (buckets (get_hash fd)) ≡ true)
        × (c.cfd x ≡ fd)
        × IsRegistry c' (λ i. remove x (buckets i)) (λ j. remove_all (chain x) (members j)) chain
        × (c'.ci_live x ≡ false))

-- On a well-formed registry, and with more rounds than the bucket has clients and each of these
-- has nodes, `server_del_one_client_fd` ends without a fault. Where no client of the bucket has
-- the descriptor it changes nothing; otherwise one client that has it is freed, it is in no bucket
-- and its nodes are in no group, and the registry is well-formed again, with every other client in
-- its groups.
pub server_del_one_client_fd-Leaves :
    (f fd : ℕ) (c : Clients) (buckets members chain : ℕ → List ℕ)
    → IsRegistry c buckets members chain
    → length (buckets (get_hash fd)) < f
    → ((a : ℕ) → has a (buckets (get_hash fd)) ≡ true → length (chain a) < f)
    → Leaves c buckets members chain fd
        (server_del_one_client_fd f (server_get_client_info_head fd) fd c)
unfolding server_del_one_client_fd server_get_client_info_head server_search_client_fd
server_del_one_client_fd-Leaves f fd c buckets members chain is short short' =
    let i = get_hash fd in
    let list = is.lists i in
    elim (search_from-Finds f 0 (c.heads i) fd (buckets i) c list.leads list.alive short) [
      | inl (nothing, apart) ↦ inl (rw nothing (unfold del_client in refl), apart)
      | inr (x, found, there, same, ne) ↦ inr (
        x,
        without is f i x there (short' x there),
        rw found (del_client-ok is f i x there (short' x there)),
        there,
        same,
        without-IsRegistry is f i x there (short' x there),
        freed is f i x there (short' x there),
      )
    ]
  where
    freed :
        {c : Clients} {buckets members chain : ℕ → List ℕ} (is : IsRegistry c buckets members chain)
        (f i x : ℕ) (m : has x (buckets i) ≡ true) (fuel : length (chain x) < f)
        → (without is f i x m fuel).ci_live x ≡ false
    freed is f i x m fuel = unfold without in ground arith
