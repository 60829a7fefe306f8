-- ===== src/Groups/Adding.antt =====
-- `server_add_client_to_one_group` of server/src/groups.c: one node is allocated, and put at the
-- front of the group's list if the group is valid and not full.
use pyramid.Prelude.{
  ℕ, ◌≤◌, ◌≡◌, ◌≢◌, ◌⊎◌, inl, inr, refl, Bool, true, false, Option, none, some, List, ◌∷◌, arith,
  leb, update, length,
}
use native.Mathlib.Decide.{ℕ_discrete, dec_lt}
use pyramid.Wire.{Run, ok}
use pyramid.Links.{is_null}
use pyramid.Groups.{Groups, server_get_client_gid_head, add_node, server_add_client_to_one_group}
use pyramid.Groups.Members.{IsGroups}
use pyramid.Groups.Added.{
  IsFresh, Added, Leaked, allocated, allocated-IsGroups, allocated-Leaked, added, added-IsGroups,
  added-Added, add_node-ok,
}

-- The call fails: it returns NULL, and every group has the nodes that it had.
abbrev pub Rejects : Groups → (ℕ → List ℕ) → Run (ℕ × Groups) → Type 0
Rejects g members r = (g' : Groups) × (r ≡ ok (0, g')) × IsGroups g' members × Leaked g g'

-- The call succeeds: a new node for the client is in front of the group's list.
abbrev pub Accepts : ℕ → ℕ → ℕ → Groups → (ℕ → List ℕ) → Run (ℕ × Groups) → Type 0
Accepts client gid cg g members r =
    (a : ℕ) × (i : ℕ) × (g' : Groups) × (a ≢ 0)
    × (server_get_client_gid_head gid ≡ some i)
    × (r ≡ ok (a, g'))
    × IsGroups g' (update members i (a ∷ members i))
    × Added a client gid cg g g'

-- Why a call fails: there is no memory, the number is no group's, or the group is full.
abbrev pub HasCause : ((ℕ → Bool) → ℕ) → ℕ → Groups → (ℕ → List ℕ) → Type 0
HasCause malloc gid g members =
    (malloc g.cg_live ≡ 0)
    ⊎ (server_get_client_gid_head gid ≡ none)
    ⊎ ((i : ℕ) × (server_get_client_gid_head gid ≡ some i) × (255 ≤ length (members i)))

module _ (malloc : (ℕ → Bool) → ℕ) (fresh : IsFresh malloc) {g : Groups} {members : ℕ → List ℕ}
    (is : IsGroups g members) where
  null-Rejects :
      (o : Option ℕ) (client gid cg : ℕ) → Rejects g members (add_node 0 o client gid cg g)
  unfolding add_node
  null-Rejects none client gid cg =
      (g, refl, is, record { lives = λ b h. h; same_ci = refl; same_ncg = refl; same_gid = refl })
  null-Rejects (some i) client gid cg =
      (g, refl, is, record { lives = λ b h. h; same_ci = refl; same_ncg = refl; same_gid = refl })

  node_cases :
      (o : Option ℕ) (a client gid cg : ℕ) (ne : a ≢ 0) (free : g.cg_live a ≡ false)
      → server_get_client_gid_head gid ≡ o
      → (HasCause malloc gid g members
          × Rejects g members (add_node a o client gid cg (allocated is a ne free)))
        ⊎ Accepts client gid cg g members (add_node a o client gid cg (allocated is a ne free))
  node_cases none a client gid cg ne free e = inl (
    inr (inl e),
    (
      allocated is a ne free,
      unfold add_node in refl,
      allocated-IsGroups is a ne free,
      allocated-Leaked is a ne free,
    ),
  )
  node_cases (some i) a client gid cg ne free e = elim (dec_lt (length (members i)) 255) [
    | yes room ↦ inr (
      a,
      i,
      added is a ne free i client gid cg e room,
      ne,
      e,
      add_node-ok is a ne free i client gid cg e room,
      added-IsGroups is a ne free i client gid cg e room,
      added-Added is a ne free i client gid cg e room,
    )
    | no full ↦
        let not_null : is_null a ≡ false = ground arith in
        let tests_full : leb 255 (g.tc i) ≡ true = ground (arith, is.counted i) in
        inl (
          inr (inr (i, e, omega arith)),
          (
            allocated is a ne free,
            unfold add_node allocated in rw (not_null, tests_full),
            allocated-IsGroups is a ne free,
            allocated-Leaked is a ne free,
          ),
        )
  ]

  without_memory :
      (client gid cg : ℕ)
      → malloc g.cg_live ≡ 0
      → server_add_client_to_one_group malloc client gid cg g
        ≡ add_node 0 (server_get_client_gid_head gid) client gid cg g
  unfolding server_add_client_to_one_group
  without_memory client gid cg e = rw e

  with_memory :
      (client gid cg : ℕ) (ne : malloc g.cg_live ≢ 0)
      → server_add_client_to_one_group malloc client gid cg g
        ≡ add_node
            (malloc g.cg_live)
            (server_get_client_gid_head gid)
            client
            gid
            cg
            (allocated is (malloc g.cg_live) ne (fresh g.cg_live ne))
  unfolding server_add_client_to_one_group allocated
  with_memory client gid cg ne =
      let not_null : is_null (malloc g.cg_live) ≡ false = ground arith in rw not_null

  -- On well-formed groups and with an allocator that returns NULL or a free address, one call of
  -- `server_add_client_to_one_group` either fails and changes no list, because memory is out, the
  -- group does not exist or it is full, or it puts one new node for the client in front of the
  -- group's list. The groups stay well-formed.
  pub server_add_client_to_one_group_cases :
      (client gid cg : ℕ)
      → (HasCause malloc gid g members
          × Rejects g members (server_add_client_to_one_group malloc client gid cg g))
        ⊎ Accepts client gid cg g members (server_add_client_to_one_group malloc client gid cg g)
  server_add_client_to_one_group_cases client gid cg = elim (ℕ_discrete (malloc g.cg_live) 0) [
    | yes e ↦
        rw (without_memory client gid cg e)
          (inl (inl e, null-Rejects (server_get_client_gid_head gid) client gid cg))
    | no ne ↦ rw (with_memory client gid cg ne) (
        node_cases (server_get_client_gid_head gid) (malloc g.cg_live) client gid cg ne
          (fresh g.cg_live ne) refl)
  ]
