-- ===== src/Tests/Clients.antt =====
-- The registry with one client, and a registry that is reached.
use pyramid.Prelude.{
  All, ℕ, ◌≡◌, refl, sym, Bool, true, List, [], ◌∷◌, arith, if◌then◌else◌, update, has,
}
use pyramid.Wire.{Run, ok, fault, out_of_fuel, exit, fetch}
use pyramid.Links.{deref, insert_front}
use pyramid.Groups.{
  server_get_client_gid_head, server_initialize_client_group_node, add_node,
  server_alloc_client_group_node, server_add_client_to_one_group, add_to_groups,
  server_add_client_to_groups,
}
use pyramid.Groups.Added.{IsFresh}
use pyramid.Registry.{
  Clients, get_hash, server_get_client_info_head, server_search_client_fd, search_from,
  server_add_one_new_client_fd, server_add_one_client_fd, server_del_one_client_fd,
  server_alloc_client_info_node, link_client, server_initialize_client_info_node,
  server_destroy_client_info_node,
}
use pyramid.Registry.Invariant.{IsRegistry}
use pyramid.Registry.Removal.{Leaves, server_del_one_client_fd-Leaves}
use pyramid.Registry.Reach.{allocated, added, calloced, no_nodes, Reachable-IsRegistry}
use pyramid.Tlv.Attribute.{cli_data}
use pyramid.Jobs.Assign.{decimal, digits}
use pyramid.Server.{Server, Work}
use pyramid.Server.Display.{sh_display_all_multicast_groups, group_entry}
use pyramid.Server.Chunks.{chunks, concat, after_chunks, put_socket, IsSmall}
use pyramid.Server.Memberships.{memberships, sh_display_all_multicast_groups-chunks}
use pyramid.Tests.Registry.{one_member, one_list, one_member-IsGroups, two_nodes, two_nodes-IsFresh}
use pyramid.Tests.Work.{worker}
use pyramid.Tests.Serving.{one_bucket, worker-IsList, system, server, room}

-- Client 100 with descriptor 7 is in group 5 by node 11.
abbrev member : Clients
member = record worker { groups = one_member; cg = λ _. 11; counts = update (λ _. 0) 7 1 }

abbrev one_chain : ℕ → List ℕ
one_chain a = 11 ∷ []

the_client : (i a : ℕ) → has a (one_bucket i) ≡ true → a ≡ 100
the_client i a h = ground arith

the_node : (n : ℕ) → has n (11 ∷ []) ≡ true → n ≡ 11
the_node n h = ground arith

member-IsRegistry : IsRegistry member one_bucket one_list one_chain
unfolding get_hash
member-IsRegistry = record {
  groups = one_member-IsGroups;
  lists = worker-IsList;
  counted = λ i. ground arith;
  placed = λ i a h. ground arith;
  chained = λ i a h. (refl, (λ z. absurd (omega arith)), refl);
  distinct = λ i a h. (refl, tt);
  within = λ i a h n hn. (4, ground arith);
  owned = λ i a n h hn. sym (the_client i a h);
  owner = λ j n h. (7, ground arith);
  member = λ j n h. ground arith;
}

server_del_one_client_fd-Leaves_example :
    Leaves member one_bucket one_list one_chain 7
      (server_del_one_client_fd 2 (server_get_client_info_head 7) 7 member)
server_del_one_client_fd-Leaves_example =
    server_del_one_client_fd-Leaves 2 7 member one_bucket one_list one_chain member-IsRegistry
      (unfold get_hash in omega arith) (λ a h. omega arith)

abbrev two_clients : (ℕ → Bool) → ℕ
two_clients live = if live 100 then (if live 101 then 0 else 101) else 100

two_clients-IsFresh : IsFresh two_clients
two_clients-IsFresh live ne = ground arith

abbrev state_of : Run (Bool × Clients) → Clients
state_of (ok (b, c)) = c
state_of fault = calloced
state_of out_of_fuel = calloced
state_of exit = calloced

abbrev joined : Clients
joined = state_of (
    server_add_one_client_fd two_nodes two_clients 1 (server_get_client_info_head 7) 7 (0, 0)
      (5 ∷ []) 1 calloced)

joins :
    server_add_one_client_fd two_nodes two_clients 1
      (server_get_client_info_head 7)
      7
      (0, 0)
      (5 ∷ [])
      1
      calloced
    ≡ ok (true, joined)
unfolding server_add_one_client_fd server_get_client_info_head server_search_client_fd search_from
    fetch calloced no_nodes server_add_one_new_client_fd server_alloc_client_info_node link_client
    server_initialize_client_info_node server_destroy_client_info_node insert_front deref
    server_add_client_to_groups add_to_groups server_add_client_to_one_group
    server_alloc_client_group_node add_node server_initialize_client_group_node
    server_get_client_gid_head get_hash
joins = refl

Reachable-IsRegistry_example :
    (buckets : ℕ → List ℕ) × (members : ℕ → List ℕ) × (chain : ℕ → List ℕ) × IsRegistry joined
      buckets members chain
Reachable-IsRegistry_example =
    Reachable-IsRegistry two_nodes two_clients two_nodes-IsFresh two_clients-IsFresh joined
      (added 1 7 (0, 0) (5 ∷ []) 1 allocated joins)

-- The server of the other tests with this registry.
abbrev serving : Server (List Work)
serving = let j = server.jobs in record server { jobs = record j { clients = member } }

one_membership :
    memberships member one_list 1000
    ≡ (10 ∷ b'g' ∷ b'i' ∷ b'd' ∷ 32 ∷ b'5' ∷ 32 ∷ b':' ∷ 32 ∷ b'7' ∷ 32 ∷ []) ∷ []
unfolding memberships group_entry decimal digits
one_membership = refl

one_frame : All IsSmall (chunks [] (memberships member one_list 1000))
unfolding chunks
one_frame = rw one_membership (omega arith, tt)

sh_display_all_multicast_groups-chunks_example :
    (sh_display_all_multicast_groups system 256 9 serving
      ≡ ok (
          put_socket 9 serving (
            after_chunks
              (system.send 9)
              cli_data
              (chunks [] (memberships member one_list 1000))
              (serving.sockets 9))))
    × (concat (chunks [] (memberships member one_list 1000))
        ≡ concat (memberships member one_list 1000))
sh_display_all_multicast_groups-chunks_example =
    sh_display_all_multicast_groups-chunks system 254 9 (λ c n. refl) serving one_bucket one_list
      one_chain member-IsRegistry (λ a. (omega arith, omega arith)) (omega arith) room one_frame
