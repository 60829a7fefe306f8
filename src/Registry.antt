-- ===== src/Registry.antt =====
-- server/src/groups.c, second half: the hash table of clients. A bucket is a doubly linked list of
-- `client_info` nodes; each field of the structure is a map from addresses, NULL is 0, and
-- `ci_live` says which nodes are allocated. A `client_info_head *` is the number of its bucket, or
-- `none` for NULL.
pub mod Lookup
pub mod Invariant
pub mod Removal
pub mod Addition
pub mod Joined
pub mod Reach
pub mod Fuel
use pyramid.Prelude.{
  ℕ, zero, suc, ◌+◌, ◌%◌, Bool, true, false, Option, none, some, List, length, ltb, ◌==◌,
  if◌then◌else◌, update,
}
use pyramid.Wire.{Run, ok, fault, out_of_fuel, ◌>>=◌, htons, htonl, fetch}
use pyramid.Links.{Links, is_null, deref, insert_front, unlink}
use pyramid.Groups.{
  Groups, max_multicast_groups, increment, decrement, server_del_client_from_groups,
  server_add_client_to_groups,
}

pub record Clients : Type 0 where
  pub groups : Groups
  pub ci_live : ℕ → Bool
  -- struct client_info
  pub l : ℕ → ℕ
  pub r : ℕ → ℕ
  pub cg : ℕ → ℕ
  pub tgid : ℕ → ℕ
  pub cfd : ℕ → ℕ
  pub cip : ℕ → ℕ
  pub cp : ℕ → ℕ
  pub busy : ℕ → Bool
  pub jn : ℕ → ℕ
  -- client_hash_map[i].h and client_hash_map[i].tc
  pub heads : ℕ → ℕ
  pub counts : ℕ → ℕ

abbrev pub max_hashmap_size : ℕ
max_hashmap_size = 255

unfoldable pub get_hash : ℕ → ℕ
get_hash cfd = cfd % max_hashmap_size

unfoldable pub server_get_client_info_head : ℕ → Option ℕ
unfolding get_hash
server_get_client_info_head cfd = some (get_hash cfd)

-- `server_update_job_node`
unfoldable pub server_update_job_node : ℕ → ℕ → Clients → Clients
server_update_job_node ci jn s = record s { jn = update s.jn ci jn }

-- The loop over a bucket from the node `ci` on; the address found, or NULL.
unfoldable pub search_from : ℕ → ℕ → ℕ → Clients → Run ℕ
search_from zero ci cfd s = out_of_fuel
search_from (suc fuel) ci cfd s =
    let rest = search_from fuel (s.r ci) cfd s in
    let round = (do _ ← deref s.ci_live ci; if s.cfd ci == cfd then ok ci else rest) in
    if is_null ci then ok 0 else round

unfoldable pub server_search_client_fd : ℕ → ℕ → ℕ → Clients → Run ℕ
unfolding search_from
server_search_client_fd fuel bucket cfd s = search_from fuel (s.heads bucket) cfd s

unfoldable pub server_destroy_client_info_node : ℕ → Clients → Clients
server_destroy_client_info_node ci s = record s { ci_live = update s.ci_live ci false }

-- The links of a bucket, and the state once they are `k`.
abbrev pub bucket_links : Clients → ℕ → Links
bucket_links s i = record { next = s.r; prev = s.l; head = s.heads i }

abbrev pub put_bucket : Clients → ℕ → Links → Clients
put_bucket s i k = record s { r = k.next; l = k.prev; heads = update s.heads i k.head }

pub del_client : ℕ → ℕ → ℕ → Clients → Run (Bool × Clients)
unfolding server_destroy_client_info_node
del_client fuel bucket ci s =
    let present = (do
      _ ← deref s.ci_live ci
      g ← server_del_client_from_groups fuel (s.cg ci) s.groups
      k ← unlink s.ci_live ci (bucket_links s bucket)
      let s1 = put_bucket (record s { groups = g }) bucket k
      let s2 = record s1 { counts = update s1.counts bucket (decrement (s1.counts bucket)) }
      ok (true, server_destroy_client_info_node ci s2)) in
    if is_null ci then ok (false, s) else present

unfoldable pub server_del_one_client_fd : ℕ → Option ℕ → ℕ → Clients → Run (Bool × Clients)
unfolding del_client
server_del_one_client_fd fuel none cfd s = ok (false, s)
server_del_one_client_fd fuel (some bucket) cfd s = do
  ci ← server_search_client_fd fuel bucket cfd s
  del_client fuel bucket ci s

-- The assignments but for l and r, which are those of `insert_front`.
unfoldable pub server_initialize_client_info_node : ℕ → ℕ → ℕ → ℕ → ℕ → ℕ → Clients → Clients
server_initialize_client_info_node nci cg n_gids cfd cip cp s = record s {
  cg = update s.cg nci cg;
  tgid = update s.tgid nci n_gids;
  cfd = update s.cfd nci cfd;
  cip = update s.cip nci cip;
  cp = update s.cp nci cp;
  busy = update s.busy nci false;
  jn = update s.jn nci 0;
}

-- What follows once the client is in its groups; the address and the port come in network order.
unfoldable pub link_client : ℕ → ℕ → ℕ → ℕ → ℕ × ℕ → ℕ → Clients → Run (Bool × Clients)
unfolding server_destroy_client_info_node server_initialize_client_info_node
link_client bucket cfd nci cg sa n_gids s =
    let joined = (do
      let s1 = server_initialize_client_info_node nci cg n_gids cfd (htonl sa.0) (htons sa.1) s
      k ← insert_front s1.ci_live nci (bucket_links s1 bucket)
      let s2 = put_bucket s1 bucket k
      ok (true, record s2 { counts = update s2.counts bucket (increment (s2.counts bucket)) })) in
    if is_null cg then ok (false, server_destroy_client_info_node nci s) else joined

-- `malloc` for the nodes of groups and for those of clients.
module _ (malloc_group malloc_info : (ℕ → Bool) → ℕ) where
  unfoldable pub server_alloc_client_info_node : Clients → ℕ × Clients
  server_alloc_client_info_node s =
      let a = malloc_info s.ci_live in
      (a, if is_null a then s else record s { ci_live = update s.ci_live a true })

  unfoldable pub server_add_one_new_client_fd :
      ℕ → ℕ → ℕ × ℕ → List ℕ → Clients → Run (Bool × Clients)
  unfolding server_alloc_client_info_node link_client
  server_add_one_new_client_fd bucket cfd sa gids s =
      let (nci, s1) = server_alloc_client_info_node s in
      let allocated = (do
        (cg, g) ← server_add_client_to_groups malloc_group nci gids s1.groups
        link_client bucket cfd nci cg sa (length gids) (record s1 { groups = g })) in
      if is_null nci then ok (false, s) else allocated

  -- The first `n_gids` cells of the array `gids` are read. The search only decides on a message.
  unfoldable pub server_add_one_client_fd :
      ℕ → Option ℕ → ℕ → ℕ × ℕ → List ℕ → ℕ → Clients → Run (Bool × Clients)
  unfolding server_add_one_new_client_fd
  server_add_one_client_fd fuel none cfd sa gids n_gids s = ok (false, s)
  server_add_one_client_fd fuel (some bucket) cfd sa gids n_gids s =
      let within = (do
        found ← server_search_client_fd fuel bucket cfd s
        read ← fetch n_gids gids
        (added, s') ← server_add_one_new_client_fd bucket cfd sa read s
        ok (true, s')) in
      if ltb max_multicast_groups n_gids then ok (false, s) else within
