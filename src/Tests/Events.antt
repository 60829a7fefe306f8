-- ===== src/Tests/Events.antt =====
-- The server's loop at concrete events: a client connects, joins group 5 and is gone.
use pyramid.Prelude.{◌≡◌, refl, Bool, true, false, some, List, [], ◌∷◌, pos}
use pyramid.Wire.{
  Run, ok, fault, out_of_fuel, exit, Bytes, load32, htonl, advance, load16, htons, store, fetch,
}
use pyramid.Tlv.{decode}
use pyramid.Messages.{Progress, handle_message, sub_int}
use pyramid.Receive.{bytes, failed, receive_data}
use pyramid.Links.{deref, insert_front, unlink}
use pyramid.Groups.{
  server_add_client_to_groups, server_get_client_gid_head, server_del_client_from_groups,
}
use pyramid.Jobs.Reassign.{reassign_job}
use pyramid.Registry.{
  server_get_client_info_head, server_search_client_fd, server_add_one_client_fd,
  server_del_one_client_fd,
}
use pyramid.Registry.Reach.{calloced}
use pyramid.Server.{System, Server, Work}
use pyramid.Server.Loop.{
  refused, accepted, Event, poll_failed, events, arrived, interrupted, Polled, Listening, Host,
  handle_event, main,
}
use pyramid.Server.Sound.{Sound}
use pyramid.Server.Reached.{started, moved, handled, IsAccepting, IsServing, Reached-IsServing}
use pyramid.Server.Main.{main-Sound}
use pyramid.Tests.Registry.{two_nodes, two_nodes-IsFresh}
use pyramid.Tests.Serving.{system, server}

abbrev joining : System (List Work)
joining = record system { malloc_group = two_nodes; malloc_info = two_nodes; malloc_jn = two_nodes }

abbrev initial : Progress (Server (List Work))
initial = record {
  g_groups = 0 ∷ 0 ∷ [];
  done = false;
  state =
      let j = server.jobs in
      record server { jobs = record j { clients = calloced; jn_live = λ a. false } };
}

-- JOIN_GROUP for group 5.
abbrev join_message : Bytes
join_message = 0 ∷ 0 ∷ 0 ∷ 12 ∷ 0 ∷ 1 ∷ 0 ∷ 4 ∷ 0 ∷ 5 ∷ 0 ∷ 0 ∷ []

abbrev connects : Event
connects = record { fd = 3; accepts = accepted 7 true true ∷ refused ∷ []; receives = [] }

abbrev joins : Event
joins = record { fd = 7; accepts = []; receives = bytes join_message ∷ failed true ∷ [] }

abbrev leaves : Event
leaves = record { fd = 7; accepts = []; receives = bytes [] ∷ [] }

abbrev first : Listening (List Work)
first = record { watched = 3 ∷ []; progress = initial }

abbrev result_of : {A : Type 0} → A → Run A → A
result_of a (ok b) = b
result_of a fault = a
result_of a out_of_fuel = a
result_of a exit = a

abbrev connected : Listening (List Work)
connected = result_of first (handle_event joining 6 [] true 3 connects first)

abbrev joined : Listening (List Work)
joined = result_of first (handle_event joining 6 [] true 3 joins connected)

abbrev is_ok : {A : Type 0} → Run A → Bool
is_ok (ok b) = true
is_ok fault = false
is_ok out_of_fuel = false
is_ok exit = false

ok_result : {A : Type 0} (a : A) (r : Run A) → is_ok r ≡ true → r ≡ ok (result_of a r)
ok_result a (ok b) h = refl
ok_result a fault h = cc
ok_result a out_of_fuel h = cc
ok_result a exit h = cc

connects_run : handle_event joining 6 [] true 3 connects first ≡ ok connected
unfolding handle_event
connects_run = refl

joins_ok : is_ok (handle_event joining 6 [] true 3 joins connected) ≡ true
unfolding handle_event receive_data handle_message load32 htonl advance sub_int decode load16 htons
    store server_add_one_client_fd server_get_client_info_head server_search_client_fd calloced
    fetch server_add_client_to_groups server_get_client_gid_head insert_front
joins_ok = refl

joins_run : handle_event joining 6 [] true 3 joins connected ≡ ok joined
joins_run = ok_result first (handle_event joining 6 [] true 3 joins connected) joins_ok

Reached-IsServing_example :
    IsServing joining 6 [] true 3 joined
    × IsAccepting joining 6 [] true 3 two_nodes-IsFresh two_nodes-IsFresh joined
Reached-IsServing_example =
    Reached-IsServing joining 6 [] true 3 two_nodes-IsFresh two_nodes-IsFresh joined (
      moved (moved (started initial refl) (handled connects connects_run))
        (handled joins joins_run))

-- The client is in the bucket of its descriptor, and its descriptor is watched.
joined_once : joined.progress.state.jobs.clients.counts 7 ≡ 1
unfolding handle_event receive_data handle_message load32 htonl advance sub_int decode load16 htons
    store server_add_one_client_fd server_get_client_info_head server_search_client_fd calloced
    fetch server_add_client_to_groups server_get_client_gid_head insert_front
joined_once = refl

abbrev host : Host (List Work)
host = record {
  get_flags = λ fd. true;
  set_flags = λ fd. true;
  socket = some 3;
  bind = λ fd port. true;
  listen = λ fd. true;
  epoll_create = true;
  epoll_ctl = λ fd. true;
  mutex_init = true;
  multicast_groups = 8;
  client_hash_map = 16;
  strtol = λ p. (pos 10, []);
  thpool_init = λ n. [];
  thpool_wait = λ p. p;
}

-- Everything that happens while the server runs.
abbrev polls : List Polled
polls =
    events (arrived connects ∷ [])
    ∷ interrupted
    ∷ events (arrived joins ∷ [])
    ∷ events (arrived leaves ∷ [])
    ∷ poll_failed
    ∷ []

abbrev final : Progress (Server (List Work))
final = result_of initial (main joining 6 [] true host [] polls initial)

main_ok : is_ok (main joining 6 [] true host [] polls initial) ≡ true
unfolding main receive_data handle_message load32 htonl advance sub_int decode load16 htons deref
    reassign_job server_get_client_info_head server_search_client_fd calloced
    server_del_one_client_fd store server_add_one_client_fd fetch server_add_client_to_groups
    server_get_client_gid_head insert_front server_del_client_from_groups unlink
main_ok = refl

main-Sound_example : Sound final.state
main-Sound_example =
    main-Sound joining 6 [] true host two_nodes-IsFresh two_nodes-IsFresh [] polls initial final
      refl (ok_result initial (main joining 6 [] true host [] polls initial) main_ok)
