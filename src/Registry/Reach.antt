-- ===== src/Registry/Reach.antt =====
-- The registry of server/src/groups.c over any sequence of its operations.
use pyramid.Prelude.{
  ℕ, suc, ◌+◌, ◌≤◌, ◌≡◌, inl, inr, refl, subst, Bool, true, false, List, [], ◌∷◌, arith, has,
  remove, length, ltb, Bool-cases, ◌==◌, update,
}
use pyramid.Wire.{Run, ok, ◌>>=◌, fetch}
use pyramid.Wire.Laws.{bind-eq-ok}
use pyramid.Groups.{Groups}
use pyramid.Groups.Leaving.{remove_all}
use pyramid.Groups.Added.{IsFresh}
use pyramid.Registry.{
  Clients, get_hash, server_get_client_info_head, server_search_client_fd,
  server_add_one_new_client_fd, server_add_one_client_fd, server_del_one_client_fd,
}
use pyramid.Registry.Invariant.{IsRegistry}
use pyramid.Registry.Removal.{server_del_one_client_fd-Leaves}
use pyramid.Registry.Joined.{server_add_one_new_client_fd-Joins}

-- Both tables and every node are zeroed, and nothing is allocated.
unfoldable pub no_nodes : Groups
no_nodes = record {
  cg_live = λ _. false;
  p = λ _. 0;
  n = λ _. 0;
  ci = λ _. 0;
  ncg = λ _. 0;
  gid = λ _. 0;
  h = λ _. 0;
  tc = λ _. 0;
}

unfoldable pub calloced : Clients
unfolding no_nodes
calloced = record {
  groups = no_nodes;
  ci_live = λ _. false;
  l = λ _. 0;
  r = λ _. 0;
  cg = λ _. 0;
  tgid = λ _. 0;
  cfd = λ _. 0;
  cip = λ _. 0;
  cp = λ _. 0;
  busy = λ _. false;
  jn = λ _. 0;
  heads = λ _. 0;
  counts = λ _. 0;
}

-- A registry for which there are lists that make it well-formed.
abbrev pub IsSound : Clients → Type 0
IsSound c =
    (buckets : ℕ → List ℕ) × (members : ℕ → List ℕ) × (chain : ℕ → List ℕ) × IsRegistry c buckets
      members chain

pub calloced-IsSound : IsSound calloced
unfolding calloced
calloced-IsSound = (
  (λ i. []),
  (λ j. []),
  (λ a. []),
  record {
    groups = record {
      lists = λ i. record { leads = refl; distinct = tt; alive = λ a m. absurd (ground arith) };
      counted = λ i. refl;
      bounded = λ i. omega arith;
      tagged = λ i a m. absurd (ground arith);
    };
    lists = λ i. record { leads = refl; distinct = tt; alive = λ a m. absurd (ground arith) };
    counted = λ i. refl;
    placed = λ i a m. absurd (ground arith);
    chained = λ i a m. absurd (ground arith);
    distinct = λ i a m. absurd (ground arith);
    within = λ i a m. absurd (ground arith);
    owned = λ i a n m. absurd (ground arith);
    owner = λ j n m. absurd (ground arith);
    member = λ j n m. absurd (ground arith);
  },
)

module _ (malloc_group malloc_info : (ℕ → Bool) → ℕ) where
  -- The registries that calls of the two functions lead to, each with any arguments. A removal gives what
  -- it gives for every number of rounds that is large enough.
  pub data Reachable : Clients → Type 0 where
    allocated : Reachable calloced
    added :
        {c c' : Clients} {result : Bool} (f fd : ℕ) (sa : ℕ × ℕ) (gids : List ℕ) (n_gids : ℕ)
        → Reachable c
        → server_add_one_client_fd malloc_group malloc_info f
            (server_get_client_info_head fd)
            fd
            sa
            gids
            n_gids
            c
          ≡ ok (result, c')
        → Reachable c'
    removed :
        {c c' : Clients} {result : Bool} (fd enough : ℕ)
        → Reachable c
        → ((f : ℕ)
            → enough ≤ f
            → server_del_one_client_fd f (server_get_client_info_head fd) fd c ≡ ok (result, c'))
        → Reachable c'

  same_state :
      {a b : Bool} {c c' : Clients} {r : Run (Bool × Clients)}
      → r ≡ ok (a, c)
      → r ≡ ok (b, c')
      → c ≡ c'
  same_state e e' = cc

  -- More than any of the lists has.
  abbrev most : (ℕ → List ℕ) → List ℕ → ℕ
  most chain [] = 0
  most chain (a ∷ bs) = length (chain a) + most chain bs

  most-bounds :
      (chain : ℕ → List ℕ) (bs : List ℕ) (a : ℕ)
      → has a bs ≡ true
      → length (chain a) ≤ most chain bs
  most-bounds chain [] a h = absurd (ground arith)
  most-bounds chain (b ∷ bs) a h = elim (Bool-cases (a == b)) [
    | inl e ↦ let same : a ≡ b = ground arith in rw same (omega arith)
    | inr e ↦ omega (arith, most-bounds chain bs a (ground arith))
  ]

  pub removed-IsSound :
      (fd enough : ℕ) (c c' : Clients) (result : Bool)
      → IsSound c
      → ((f : ℕ)
          → enough ≤ f
          → server_del_one_client_fd f (server_get_client_info_head fd) fd c ≡ ok (result, c'))
      → IsSound c'
  removed-IsSound fd enough c c' result (buckets, members, chain, is) runs =
      let bucket = buckets (get_hash fd) in
      let f : ℕ = suc (enough + (length bucket + most chain bucket)) in
      elim (server_del_one_client_fd-Leaves f fd c buckets members chain is (omega arith)
        (λ a h. omega (arith, most-bounds chain bucket a h))) [
          | inl (nothing, apart) ↦
              subst IsSound (same_state nothing (runs f (omega arith)))
                (buckets, members, chain, is)
          | inr (x, c1, done, there, named, is', freed) ↦
              subst IsSound (same_state done (runs f (omega arith)))
                ((λ i. remove x (buckets i)), (λ j. remove_all (chain x) (members j)), chain, is')
        ]

  module _ (fresh : IsFresh malloc_group) (fresh' : IsFresh malloc_info) where
    joined-IsSound :
        (fd : ℕ) (sa : ℕ × ℕ) (gids : List ℕ) (c c' : Clients) (result : Bool)
        → IsSound c
        → server_add_one_new_client_fd malloc_group malloc_info (get_hash fd) fd sa gids c
          ≡ ok (result, c')
        → IsSound c'
    joined-IsSound fd sa gids c c' result (buckets, members, chain, is) run =
        elim (server_add_one_new_client_fd-Joins malloc_group malloc_info sa gids c fd buckets
          members chain fresh fresh' is) [
            | inl (c1, refused, is', why) ↦
                subst IsSound (same_state refused run) (buckets, members, chain, is')
            | inr (x, xs, members', c1, done, free, named, is', others, size, numbers) ↦
                subst IsSound (same_state done run) (
                  update buckets (get_hash fd) (x ∷ buckets (get_hash fd)),
                  members',
                  update chain x xs,
                  is',
                )
          ]

    pub added-IsSound :
        (f fd : ℕ) (sa : ℕ × ℕ) (gids : List ℕ) (n_gids : ℕ) (c c' : Clients) (result : Bool)
        → IsSound c
        → server_add_one_client_fd malloc_group malloc_info f
            (server_get_client_info_head fd)
            fd
            sa
            gids
            n_gids
            c
          ≡ ok (result, c')
        → IsSound c'
    unfolding server_add_one_client_fd server_get_client_info_head
    added-IsSound f fd sa gids n_gids c c' result is = elim (Bool-cases (ltb 1000 n_gids)) [
      | inl many ↦ rw many (λ e. subst IsSound (same_state refl e) is)
      | inr few ↦ rw few λ e.
          let (found, _, e1) =
            bind-eq-ok (server_search_client_fd f (get_hash fd) fd c)
              (λ found. fetch n_gids gids >>= after) e in
          let (read, _, e2) = bind-eq-ok (fetch n_gids gids) after e1 in
          let (r, run, e3) =
            bind-eq-ok
              (server_add_one_new_client_fd malloc_group malloc_info (get_hash fd) fd sa read c)
              (λ r. ok (true, r.1)) e2 in
          subst IsSound (same_state refl e3) (joined-IsSound fd sa read c r.1 r.0 is run)
    ]
      where
        after : List ℕ → Run (Bool × Clients)
        after read =
            server_add_one_new_client_fd malloc_group malloc_info (get_hash fd) fd sa read c
            >>= λ r. ok (true, r.1)

    -- Every registry that additions and removals lead to from the zeroed tables is well-formed: its
    -- buckets and groups are well-formed lists, each client is in the bucket of its descriptor and
    -- its chain is made of nodes of groups, and each node of a group belongs to an allocated client.
    -- The allocators return NULL or a free address.
    pub Reachable-IsRegistry :
        (c : Clients)
        → Reachable c
        → (buckets : ℕ → List ℕ) × (members : ℕ → List ℕ) × (chain : ℕ → List ℕ) × IsRegistry c
            buckets members chain
    Reachable-IsRegistry c allocated = calloced-IsSound
    Reachable-IsRegistry c (added {c = b} {result} f fd sa gids n_gids before run) =
        added-IsSound f fd sa gids n_gids b c result (Reachable-IsRegistry b before) run
    Reachable-IsRegistry c (removed {c = b} {result} fd enough before runs) =
        removed-IsSound fd enough b c result (Reachable-IsRegistry b before) runs
