-- ===== src/Groups.antt =====
-- server/src/groups.c, first half: the multicast groups. `multicast_groups` is an array of list
-- heads with counters; a `client_group` node says that a client is in a group, and the nodes of one
-- client are chained by `ncg`. Each field of the node structure is a map from addresses, NULL is 0,
-- and `cg_live` says which nodes are allocated; a use of another address is a `fault`.
pub mod Members
pub mod Leaving
pub mod Added
pub mod Adding
pub mod Joining
use pyramid.Prelude.{
  ℕ, zero, suc, ◌+◌, ◌-◌, ◌%◌, Bool, true, false, ◌&&◌, Option, none, some, List, [], ◌∷◌, length,
  leb, if◌then◌else◌, update,
}
use pyramid.Wire.{Run, ok, fault, out_of_fuel, ◌>>=◌}
use pyramid.Links.{Links, is_null, deref, insert_front, unlink}

pub record Groups : Type 0 where
  pub cg_live : ℕ → Bool
  -- struct client_group
  pub p : ℕ → ℕ
  pub n : ℕ → ℕ
  pub ci : ℕ → ℕ
  pub ncg : ℕ → ℕ
  pub gid : ℕ → ℕ
  -- multicast_groups[i].h and multicast_groups[i].tc
  pub h : ℕ → ℕ
  pub tc : ℕ → ℕ

abbrev pub max_multicast_groups : ℕ
max_multicast_groups = 1000

abbrev pub max_clients_per_multicast_group : ℕ
max_clients_per_multicast_group = 255

-- `uint` arithmetic
abbrev pub increment : ℕ → ℕ
increment n = (n + 1) % 4294967296

abbrev pub decrement : ℕ → ℕ
decrement n = (n + 4294967295) % 4294967296

pub server_is_multicast_group_valid : ℕ → Bool
server_is_multicast_group_valid gid = leb 1 gid && leb gid max_multicast_groups

-- The index into `multicast_groups`, or `none` for NULL.
unfoldable pub server_get_client_gid_head : ℕ → Option ℕ
unfolding server_is_multicast_group_valid
server_get_client_gid_head gid =
    if server_is_multicast_group_valid gid then some (gid - 1) else none

-- The links of group `i`, and the state once they are `k`.
abbrev pub group_links : Groups → ℕ → Links
group_links g i = record { next = g.n; prev = g.p; head = g.h i }

abbrev pub put_links : Groups → ℕ → Links → Groups
put_links g i k = record g { n = k.next; p = k.prev; h = update g.h i k.head }

-- `free(me)`
pub server_destroy_client_group_node : ℕ → Groups → Groups
server_destroy_client_group_node me g = record g { cg_live = update g.cg_live me false }

-- The body of the loop below, once `cgh` is known.
pub del_node : ℕ → Option ℕ → Groups → Run Groups
unfolding server_destroy_client_group_node
del_node me none g = fault
del_node me (some i) g = do
  k ← unlink g.cg_live me (group_links g i)
  let g1 = put_links g i k
  ok (server_destroy_client_group_node me (record g1 { tc = update g1.tc i (decrement (g1.tc i)) }))

-- `while (cg)`
unfoldable pub server_del_client_from_groups : ℕ → ℕ → Groups → Run Groups
unfolding del_node
server_del_client_from_groups zero cg g = out_of_fuel
server_del_client_from_groups (suc fuel) cg g =
    let round = (do
      _ ← deref g.cg_live cg
      g' ← del_node cg (server_get_client_gid_head (g.gid cg)) g
      server_del_client_from_groups fuel (g.ncg cg) g') in
    if is_null cg then ok g else round

-- The assignments of ci, ncg and gid; p and n are those of `insert_front`.
unfoldable pub server_initialize_client_group_node : ℕ → ℕ → ℕ → ℕ → Groups → Groups
server_initialize_client_group_node a client cg gid g = record g {
  ci = update g.ci a client;
  ncg = update g.ncg a cg;
  gid = update g.gid a gid;
}

unfoldable pub add_node : ℕ → Option ℕ → ℕ → ℕ → ℕ → Groups → Run (ℕ × Groups)
unfolding server_initialize_client_group_node
add_node a none client gid cg g = ok (0, g)
add_node a (some i) client gid cg g =
    if is_null a
    then ok (0, g)
    else if leb max_clients_per_multicast_group (g.tc i)
    then ok (0, g)
    else (do
      let g1 = server_initialize_client_group_node a client cg gid g
      k ← insert_front g1.cg_live a (group_links g1 i)
      let g2 = put_links g1 i k
      ok (a, record g2 { tc = update g2.tc i (increment (g2.tc i)) }))

-- `malloc` for these nodes: given the allocated ones, an address, or NULL.
module _ (malloc : (ℕ → Bool) → ℕ) where
  unfoldable pub server_alloc_client_group_node : Groups → ℕ × Groups
  server_alloc_client_group_node g =
      let a = malloc g.cg_live in
      (a, if is_null a then g else record g { cg_live = update g.cg_live a true })

  -- The new node, or NULL.
  unfoldable pub server_add_client_to_one_group : ℕ → ℕ → ℕ → Groups → Run (ℕ × Groups)
  unfolding add_node server_alloc_client_group_node
  server_add_client_to_one_group client gid cg g =
      let (a, g1) = server_alloc_client_group_node g in
      add_node a (server_get_client_gid_head gid) client gid cg g1

  -- The loop over `gids`, with the chain built so far, which has at most `added` nodes.
  unfoldable pub add_to_groups : ℕ → ℕ → List ℕ → ℕ → Groups → Run (ℕ × Groups)
  unfolding server_add_client_to_one_group
  add_to_groups added client [] cg g = ok (cg, g)
  add_to_groups added client (gid ∷ gids) cg g = do
    (cgt, g1) ← server_add_client_to_one_group client gid cg g
    let rest = add_to_groups (suc added) client gids cgt g1
    if is_null cgt
        then (do g2 ← server_del_client_from_groups (suc added) cg g1; ok (0, g2))
        else rest

  unfoldable pub server_add_client_to_groups : ℕ → List ℕ → Groups → Run (ℕ × Groups)
  unfolding add_to_groups
  server_add_client_to_groups client gids g = add_to_groups 0 client gids 0 g
