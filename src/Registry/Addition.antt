-- ===== src/Registry/Addition.antt =====
-- `server_add_one_new_client_fd` of server/src/groups.c keeps the registry well-formed.
use pyramid.Prelude.{
  ℕ, ◌%◌, ◌≡◌, ◌≢◌, ◌⊎◌, inl, inr, refl, sym, ap, subst, ◌∙◌, true, false, List, ◌∷◌, arith, has,
  Distinct, length, Bool-cases, update,
}
use native.Mathlib.Decide.{ℕ_discrete}
use pyramid.Wire.{ok, htons, htonl}
use pyramid.Links.{Links, is_null, insert_front}
use pyramid.Links.Lists.{IsList, SameLinks, inserted, insert-IsList}
use pyramid.Groups.{Groups, increment}
use pyramid.Groups.Members.{IsGroups, IsList-frame}
use pyramid.Groups.Leaving.{Chain, InGroups}
use pyramid.Groups.Joining.{Same, HasJoined, Chain-frame}
use pyramid.Registry.{
  Clients, get_hash, bucket_links, put_bucket, link_client, server_destroy_client_info_node,
  server_initialize_client_info_node,
}
use pyramid.Registry.Invariant.{IsRegistry, has_of_remove_all, has-remove_all}

module _ {c : Clients} {buckets members chain : ℕ → List ℕ}
    (is : IsRegistry c buckets members chain) (x : ℕ) (ne : x ≢ 0)
    (free : c.ci_live x ≡ false) where
  outside : (i : ℕ) → has x (buckets i) ≡ false
  outside i = ground (arith, (is.lists i).alive x, free)

  live_node :
      (i a n : ℕ) → has a (buckets i) ≡ true → has n (chain a) ≡ true → c.groups.cg_live n ≡ true
  live_node i a n h hn = let (j, there) = is.within i a h n hn in (is.groups.lists j).alive n there

  -- The new client allocated, and freed again, with groups that are as before.
  unfoldable pub given_up : Groups → Clients
  unfolding server_destroy_client_info_node
  given_up g =
      server_destroy_client_info_node x (record c { groups = g; ci_live = update c.ci_live x true })

  pub given_up-IsRegistry :
      (g : Groups)
      → IsGroups g members
      → Same c.groups g
      → IsRegistry (given_up g) buckets members chain
  unfolding given_up
  given_up-IsRegistry g gs same = record {
    groups = gs;
    lists = λ i.
        IsList-frame c.ci_live _ (bucket_links c i) (bucket_links c i) (buckets i)
          (λ a h. (refl, refl, ground (arith, outside i))) refl (is.lists i);
    counted = is.counted;
    placed = is.placed;
    chained = λ i a h.
        Chain-frame c.groups.ncg g.ncg (c.cg a) (chain a)
          (λ n hn. (same n (live_node i a n h hn)).1) (is.chained i a h);
    distinct = is.distinct;
    within = is.within;
    owned = λ i a n h hn. (same n (live_node i a n h hn)).0 ∙ is.owned i a n h hn;
    owner = λ j n h. rw ((same n ((is.groups.lists j).alive n h)).0) (is.owner j n h);
    member = λ j n h. rw ((same n ((is.groups.lists j).alive n h)).0) (is.member j n h);
  }

  module _ (fd : ℕ) (sa : ℕ × ℕ) (n_gids cg : ℕ) (g : Groups) (members' : ℕ → List ℕ) (xs : List ℕ)
      (h : HasJoined c.groups g members members' x cg xs) where
    abbrev i : ℕ
    i = get_hash fd

    unfoldable pub ready : Clients
    unfolding server_initialize_client_info_node
    ready =
        server_initialize_client_info_node x cg n_gids fd (htonl sa.0) (htons sa.1)
          (record c { groups = g; ci_live = update c.ci_live x true })

    abbrev linked : Links
    linked = inserted ready.ci_live x (bucket_links ready i)

    ready-IsList : (j : ℕ) → IsList ready.ci_live (bucket_links ready j) (buckets j)
    unfolding ready
    ready-IsList j =
        IsList-frame c.ci_live _ (bucket_links c j) (bucket_links ready j) (buckets j)
          (λ a m. (refl, refl, ground (arith, outside j))) refl (is.lists j)

    linked-IsList :
        (insert_front ready.ci_live x (bucket_links ready i) ≡ ok linked)
        × IsList ready.ci_live linked (x ∷ buckets i)
        × SameLinks (x ∷ buckets i) (bucket_links ready i) linked
    linked-IsList =
        insert-IsList ready.ci_live x (bucket_links ready i) ne (unfold ready in ground arith)
          (buckets i) (outside i) (ready-IsList i)

    unfoldable pub with_client : Clients
    with_client =
        let s2 = put_bucket ready i linked in
        record s2 { counts = update s2.counts i (increment (s2.counts i)) }

    abbrev buckets' : ℕ → List ℕ
    buckets' = update buckets i (x ∷ buckets i)

    abbrev chain' : ℕ → List ℕ
    chain' = update chain x xs

    with_client-here : IsList with_client.ci_live (bucket_links with_client i) (buckets' i)
    unfolding with_client
    with_client-here =
        let here : buckets' i ≡ x ∷ buckets i = ground arith in
        rw here (
          IsList-frame ready.ci_live ready.ci_live linked (bucket_links with_client i)
            (x ∷ buckets i) (λ a m. (refl, refl, refl)) (ground arith) linked-IsList.1)

    with_client-there :
        (j : ℕ) → j ≢ i → IsList with_client.ci_live (bucket_links with_client j) (buckets' j)
    unfolding with_client
    with_client-there j apart =
        let there : buckets' j ≡ buckets j = ground arith in
        rw there (
          IsList-frame ready.ci_live ready.ci_live (bucket_links ready j)
            (bucket_links with_client j) (buckets j)
            (λ a m.
              let same =
                linked-IsList.2 a (ground (arith, outside j, is.placed i a, is.placed j a m)) in
              (same.0, same.1, refl))
            (ground arith) (ready-IsList j))

    with_client-lists :
        (j : ℕ) → IsList with_client.ci_live (bucket_links with_client j) (buckets' j)
    with_client-lists j = elim (ℕ_discrete j i) [
      | yes e ↦
          subst (λ k. IsList with_client.ci_live (bucket_links with_client k) (buckets' k)) (sym e)
            with_client-here
      | no apart ↦ with_client-there j apart
    ]

    with_client-counted : (j : ℕ) → with_client.counts j ≡ length (buckets' j) % 4294967296
    unfolding with_client ready
    with_client-counted j = ground (arith, is.counted i, is.counted j)

    with_client-placed : (j a : ℕ) → has a (buckets' j) ≡ true → get_hash (with_client.cfd a) ≡ j
    unfolding with_client ready
    with_client-placed j a m = ground (arith, is.placed j a, outside j)

    -- A client of a bucket is the new one, or was there before.
    new_or_old :
        (j a : ℕ) → has a (buckets' j) ≡ true → (a ≡ x) ⊎ ((a ≢ x) × (has a (buckets j) ≡ true))
    new_or_old j a m = elim (ℕ_discrete a x) [
      | yes e ↦ inl e
      | no apart ↦ inr (apart, ground arith)
    ]

    chain_new : chain' x ≡ xs
    chain_new = ground arith

    chain_old : (a : ℕ) → a ≢ x → chain' a ≡ chain a
    chain_old a apart = ground arith

    cg_new : with_client.cg x ≡ cg
    unfolding with_client ready
    cg_new = ground arith

    cg_old : (a : ℕ) → a ≢ x → with_client.cg a ≡ c.cg a
    unfolding with_client ready
    cg_old a apart = ground arith

    groups_then : with_client.groups ≡ g
    unfolding with_client ready
    groups_then = refl

    with_client-chained :
        (j a : ℕ) → has a (buckets' j) ≡ true → Chain g.ncg (with_client.cg a) (chain' a)
    with_client-chained j a m = elim (new_or_old j a m) [
      | inl e ↦
          subst (λ b. Chain g.ncg (with_client.cg b) (chain' b)) (sym e)
            (rw (cg_new, chain_new) h.chain)
      | inr (apart, old) ↦
          rw (cg_old a apart, chain_old a apart)
            (Chain-frame c.groups.ncg g.ncg (c.cg a) (chain a)
              (λ n hn. (h.same n (live_node j a n old hn)).1) (is.chained j a old))
    ]

    with_client-Distinct : (j a : ℕ) → has a (buckets' j) ≡ true → Distinct (chain' a)
    with_client-Distinct j a m = elim (new_or_old j a m) [
      | inl e ↦ subst (λ b. Distinct (chain' b)) (sym e) (rw chain_new h.distinct)
      | inr (apart, old) ↦ rw (chain_old a apart) (is.distinct j a old)
    ]

    -- A node that was in a group is still in it.
    still : (j n : ℕ) → has n (members j) ≡ true → has n (members' j) ≡ true
    still j n m = has_of_remove_all n xs (members' j) (rw (h.others j) m)

    with_client-within : (j a : ℕ) → has a (buckets' j) ≡ true → InGroups members' (chain' a)
    with_client-within j a m = elim (new_or_old j a m) [
      | inl e ↦ subst (λ b. InGroups members' (chain' b)) (sym e) (rw chain_new h.within)
      | inr (apart, old) ↦
          rw (chain_old a apart)
            (λ n hn. let (k, there) = is.within j a old n hn in (k, still k n there))
    ]

    with_client-owned :
        (j a n : ℕ) → has a (buckets' j) ≡ true → has n (chain' a) ≡ true → g.ci n ≡ a
    with_client-owned j a n m = elim (new_or_old j a m) [
      | inl e ↦ rw (e, chain_new) (λ hn. h.owner n hn)
      | inr (apart, old) ↦
          rw (chain_old a apart)
            (λ hn. (h.same n (live_node j a n old hn)).0 ∙ is.owned j a n old hn)
    ]

    -- A node of a group is one of the new client's, or was in the group before.
    mine_or_old :
        (j n : ℕ) → has n (members' j) ≡ true → (has n xs ≡ true) ⊎ (has n (members j) ≡ true)
    mine_or_old j n m = elim (Bool-cases (has n xs)) [
      | inl mine ↦ inl mine
      | inr other ↦ inr (
          sym (ap (λ (l : List ℕ). has n l) (h.others j))
          ∙ has-remove_all n xs (members' j) other
          ∙ m)
    ]

    kept_client : (j n : ℕ) → has n (members j) ≡ true → g.ci n ≡ c.groups.ci n
    kept_client j n m = (h.same n ((is.groups.lists j).alive n m)).0

    with_client-owner :
        (j n : ℕ) → has n (members' j) ≡ true → (k : ℕ) × (has (g.ci n) (buckets' k) ≡ true)
    with_client-owner j n m = elim (mine_or_old j n m) [
      | inl mine ↦ (i, rw (h.owner n mine) (ground arith))
      | inr old ↦ let (k, there) = is.owner j n old in (k, rw (kept_client j n old) (ground arith))
    ]

    with_client-member : (j n : ℕ) → has n (members' j) ≡ true → has n (chain' (g.ci n)) ≡ true
    with_client-member j n m = elim (mine_or_old j n m) [
      | inl mine ↦ rw (h.owner n mine, chain_new) mine
      | inr old ↦
          let (k, there) = is.owner j n old in
          let apart : c.groups.ci n ≢ x = ground (arith, outside k) in
          rw (kept_client j n old, chain_old (c.groups.ci n) apart) (is.member j n old)
    ]

    pub with_client-IsRegistry : IsRegistry with_client buckets' members' chain'
    with_client-IsRegistry = record {
      groups = rw groups_then h.groups;
      lists = with_client-lists;
      counted = with_client-counted;
      placed = with_client-placed;
      chained = rw groups_then with_client-chained;
      distinct = with_client-Distinct;
      within = with_client-within;
      owned = rw groups_then with_client-owned;
      owner = rw groups_then with_client-owner;
      member = rw groups_then with_client-member;
    }

    pub link_client-ok :
        is_null cg ≡ false
        → link_client i fd x cg sa n_gids
            (record c { groups = g; ci_live = update c.ci_live x true })
          ≡ ok (true, with_client)
    unfolding link_client ready with_client
    link_client-ok not_null = rw (not_null, linked-IsList.0) refl
