-- ===== src/Registry/Joined.antt =====
-- What `server_add_one_new_client_fd` of server/src/groups.c makes of a well-formed registry.
use pyramid.Prelude.{
  map, ℕ, ◌≡◌, ◌≢◌, ◌⊎◌, inl, inr, refl, sym, ap, subst, fun_ext, ◌∙◌, Bool, true, false, List, [],
  ◌∷◌, arith, length, Bool-cases, update,
}
use pyramid.Wire.{Run, ok}
use pyramid.Links.{is_null}
use pyramid.Groups.{Groups, server_add_client_to_groups}
use pyramid.Groups.Members.{IsGroups}
use pyramid.Groups.Leaving.{Chain, remove_all}
use pyramid.Groups.Added.{IsFresh}
use pyramid.Groups.Joining.{
  CannotJoin, reversed, Same, HasJoined, server_add_client_to_groups-AllOrNone,
}
use pyramid.Registry.{
  Clients, get_hash, link_client, server_alloc_client_info_node, server_add_one_new_client_fd,
}
use pyramid.Registry.Invariant.{IsRegistry}
use pyramid.Registry.Addition.{
  given_up, given_up-IsRegistry, with_client, with_client-IsRegistry, link_client-ok, ready,
}

-- Nothing has changed for the lists; or there is a new client with the descriptor `fd`, first in its
-- bucket, with one node for each group number, the last first, and without these nodes the groups are as
-- before.
abbrev pub Joins :
    ((ℕ → Bool) → ℕ)
    → ((ℕ → Bool) → ℕ)
    → Clients
    → (ℕ → List ℕ)
    → (ℕ → List ℕ)
    → (ℕ → List ℕ)
    → ℕ
    → List ℕ
    → Run (Bool × Clients)
    → Type 0
Joins malloc_group malloc_info c buckets members chain fd gids r =
    ((c' : Clients) × (r ≡ ok (false, c'))
      × IsRegistry c' buckets members chain
      × ((malloc_info c.ci_live ≡ 0) ⊎ (gids ≡ []) ⊎ CannotJoin malloc_group members gids))
    ⊎ ((x : ℕ) × (xs : List ℕ) × (members' : ℕ → List ℕ) × (c' : Clients) × (r ≡ ok (true, c'))
        × (c.ci_live x ≡ false)
        × (c'.cfd x ≡ fd)
        × IsRegistry c' (update buckets (get_hash fd) (x ∷ buckets (get_hash fd))) members'
            (update chain x xs)
        × ((j : ℕ) → remove_all xs (members' j) ≡ members j)
        × (length xs ≡ length gids)
        × (map c'.groups.gid xs ≡ reversed gids []))

no_numbers : (gids : List ℕ) → length gids ≡ 0 → gids ≡ []
no_numbers [] e = refl
no_numbers (x ∷ xs) e = absurd (omega (arith, e))

Chain-nil : (ncg : ℕ → ℕ) (cg : ℕ) (xs : List ℕ) → cg ≡ 0 → Chain ncg cg xs → xs ≡ []
Chain-nil ncg cg [] e h = refl
Chain-nil ncg cg (x ∷ xs) e (first, ne, h) = absurd (ne (sym first ∙ e))

module _ (malloc_group malloc_info : (ℕ → Bool) → ℕ) (sa : ℕ × ℕ) (gids : List ℕ) (c : Clients)
    (fd : ℕ) where
  abbrev x : ℕ
  x = malloc_info c.ci_live

  abbrev run : Run (Bool × Clients)
  run = server_add_one_new_client_fd malloc_group malloc_info (get_hash fd) fd sa gids c

  run-null : is_null x ≡ true → run ≡ ok (false, c)
  unfolding server_add_one_new_client_fd server_alloc_client_info_node
  run-null null = rw null refl

  run-linked :
      (cg : ℕ) (g : Groups)
      → is_null x ≡ false
      → server_add_client_to_groups malloc_group x gids c.groups ≡ ok (cg, g)
      → run
        ≡ link_client
            (get_hash fd)
            fd
            x
            cg
            sa
            (length gids)
            (record c { groups = g; ci_live = update c.ci_live x true })
  unfolding server_add_one_new_client_fd server_alloc_client_info_node
  run-linked cg g not_null result = rw (not_null, result) refl

  module _ {buckets members chain : ℕ → List ℕ} (is : IsRegistry c buckets members chain)
      (not_null : is_null x ≡ false) (free : c.ci_live x ≡ false) where
    x_ne_zero : x ≢ 0
    x_ne_zero = ground (arith, not_null)

    link_client-null :
        (cg : ℕ) (g : Groups)
        → is_null cg ≡ true
        → link_client
            (get_hash fd)
            fd
            x
            cg
            sa
            (length gids)
            (record c { groups = g; ci_live = update c.ci_live x true })
          ≡ ok (false, given_up is x x_ne_zero free g)
    unfolding link_client given_up
    link_client-null cg g null = rw null refl

    gives_up :
        (cg : ℕ) (g : Groups)
        → server_add_client_to_groups malloc_group x gids c.groups ≡ ok (cg, g)
        → is_null cg ≡ true
        → IsGroups g members
        → Same c.groups g
        → (gids ≡ []) ⊎ CannotJoin malloc_group members gids
        → Joins malloc_group malloc_info c buckets members chain fd gids run
    gives_up cg g result null gs same why = inl (
      given_up is x x_ne_zero free g,
      run-linked cg g not_null result ∙ link_client-null cg g null,
      given_up-IsRegistry is x x_ne_zero free g gs same,
      inr why,
    )

    joins :
        (cg : ℕ) (xs : List ℕ) (members' : ℕ → List ℕ) (g : Groups)
        → server_add_client_to_groups malloc_group x gids c.groups ≡ ok (cg, g)
        → HasJoined c.groups g members members' x cg xs
        → length xs ≡ length gids
        → map g.gid xs ≡ reversed gids []
        → is_null cg ≡ false
        → Joins malloc_group malloc_info c buckets members chain fd gids run
    joins cg xs members' g result h size numbers some_chain =
        let c' = with_client is x x_ne_zero free fd sa (length gids) cg g members' xs h in
        inr (
          x,
          xs,
          members',
          c',
          run-linked cg g not_null result
              ∙ link_client-ok is x x_ne_zero free fd sa (length gids) cg g members' xs h
                  some_chain,
          free,
          named,
          with_client-IsRegistry is x x_ne_zero free fd sa (length gids) cg g members' xs h,
          h.others,
          size,
          numbered,
        )
      where
        numbered :
            map
              (with_client is x x_ne_zero free fd sa (length gids) cg g members' xs h).groups.gid
              xs
            ≡ reversed gids []
        numbered = unfold with_client ready in numbers

        named : (with_client is x x_ne_zero free fd sa (length gids) cg g members' xs h).cfd x ≡ fd
        named = unfold with_client ready in ground arith

  pub server_add_one_new_client_fd-Joins :
      (buckets members chain : ℕ → List ℕ)
      → IsFresh malloc_group
      → IsFresh malloc_info
      → IsRegistry c buckets members chain
      → Joins malloc_group malloc_info c buckets members chain fd gids
          (server_add_one_new_client_fd malloc_group malloc_info (get_hash fd) fd sa gids c)
  server_add_one_new_client_fd-Joins buckets members chain fresh fresh' is =
      elim (Bool-cases (is_null x)) [
        | inl null ↦ inl (c, run-null null, is, inl (ground (arith, null)))
        | inr not_null ↦
            let free : c.ci_live x ≡ false = fresh' c.ci_live (ground (arith, not_null)) in
            elim (server_add_client_to_groups-AllOrNone malloc_group fresh x gids c.groups members
              is.groups) [
                | inl (g, result, gs, same, why) ↦
                    gives_up is not_null free 0 g result refl gs same (inr why)
                | inr (cg, xs, members', g, result, h, size, numbers) ↦
                    elim (Bool-cases (is_null cg)) [
                      | inl null ↦
                          let nil : xs ≡ [] =
                            Chain-nil g.ncg cg xs (ground (arith, null)) h.chain in
                          let as_before : members' ≡ members =
                            fun_ext
                              (λ j. sym (ap (λ l. remove_all l (members' j)) nil) ∙ h.others j) in
                          gives_up is not_null free cg g result null
                            (subst (IsGroups g) as_before h.groups) h.same
                            (inl (no_numbers gids (sym size ∙ ap length nil)))
                      | inr some_chain ↦
                          joins is not_null free cg xs members' g result h size numbers some_chain
                    ]
              ]
      ]
