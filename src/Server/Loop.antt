-- ===== src/Server/Loop.antt =====
-- server/src/server.c: the socket of the server, the loop over the events of epoll, the start of the
-- threads, and `main`. What the calls of the system return is a parameter: for those of the loop it
-- is a list, one element for each call.
use pyramid.Prelude.{
  as_int, ℕ, ◌-◌, ◌%◌, Bool, true, false, ◌||◌, Option, none, some, List, [], ◌∷◌, ◌==◌,
  if◌then◌else◌, ℤ, pos, negsuc, leb_ℤ, remove,
}
use pyramid.Wire.{Run, ok, out_of_fuel, exit, ◌>>=◌, Bytes, htons}
use pyramid.Messages.{Progress}
use pyramid.Receive.{Received}
use pyramid.Jobs.Flow.{initialize_job_dll}
use pyramid.Server.{System, Server, Work}
use pyramid.Server.Replies.{submit_job}
use pyramid.Server.Start.{long_min, long_max, not_empty, choose_port, server_alloc_memory}
use pyramid.Server.Events.{receive_from}

-- `accept` returned -1, or a descriptor; then the last two say whether `fcntl` and `epoll_ctl`
-- succeeded for it.
pub data Accepted : Type 0 where
  refused : Accepted
  accepted : ℕ → Bool → Bool → Accepted

-- One of the events: its descriptor, and what `accept` or `recv` return while it is handled.
pub record Event : Type 0 where
  pub fd : ℕ
  pub accepts : List Accepted
  pub receives : List Received

-- An event, or a work that a thread of the pool runs before the next event: any work, whether it was
-- added or not.
pub data Happening : Type 0 where
  arrived : Event → Happening
  ran : Work → Happening

-- `epoll_wait` returned -1, where `errno` is EINTR or not, or some events.
pub data Polled : Type 0 where
  interrupted : Polled
  poll_failed : Polled
  events : List Happening → Polled

-- The descriptors that epoll watches, the server, and `g_groups` with it.
pub record Listening (P : Type 0) : Type 0 where
  pub watched : List ℕ
  pub progress : Progress (Server P)

abbrev pub put_server : {P : Type 0} → Listening P → Server P → Listening P
put_server l s = let p = l.progress in record l { progress = record p { state = s } }

-- The calls at the start: the results of the two calls of `fcntl`, of `socket`, `bind`, `listen`,
-- `epoll_create1`, `epoll_ctl` and `pthread_mutex_init`, what `calloc` returns for the two tables,
-- `strtol`, and the functions of the thread pool.
pub record Host (P : Type 0) : Type 0 where
  pub get_flags : ℕ → Bool
  pub set_flags : ℕ → Bool
  pub socket : Option ℕ
  pub bind : ℕ → ℕ → Bool
  pub listen : ℕ → Bool
  pub epoll_create : Bool
  pub epoll_ctl : ℕ → Bool
  pub mutex_init : Bool
  pub multicast_groups : ℕ
  pub client_hash_map : ℕ
  pub strtol : Bytes → ℤ × Bytes
  pub thpool_init : ℤ → P
  pub thpool_wait : P → P

-- The `uint16_t` that the argument of `htons` is cut to.
abbrev pub to_uint16 : ℤ → ℕ
to_uint16 (pos n) = n % 65536
to_uint16 (negsuc n) = 65535 - n % 65536

-- "10"
abbrev ten : Bytes
ten = b'1' ∷ b'0' ∷ []

-- The number of threads among the arguments behind the program's name.
abbrev pub threads : List Bytes → Bytes
threads (port ∷ num ∷ args) = num
threads args = ten

module _ {P : Type 0} (h : Host P) where
  pub make_socket_non_blocking : ℕ → Bool
  make_socket_non_blocking sfd = if h.get_flags sfd then h.set_flags sfd else false

  -- The descriptor, or `none` for -1.
  pub init_server_socket : ℤ → Option ℕ
  unfolding htons
  init_server_socket server_p = elim h.socket [
    | none ↦ none
    | some server_fd ↦
        if h.bind server_fd (htons (to_uint16 server_p)) then some server_fd else none
  ]

  unfoldable pub init_all_locks : Server P → Run (Server P)
  init_all_locks s = if h.mutex_init then ok s else exit

  unfoldable pub start_threads : Bytes → Server P → Run (Server P)
  unfolding init_all_locks as_int
  start_threads num s =
      let n = h.strtol num in
      let started = (do
        s1 ← init_all_locks (record s { g_thpool = h.thpool_init (as_int n.0) })
        ok (record s1 { g_thpool = h.thpool_wait s1.g_thpool })) in
      if not_empty n.1 || (leb_ℤ n.0 long_min || leb_ℤ long_max n.0) then ok s else started

-- `while(1)` of `handle_new_client_connections`
unfoldable pub handle_new_client_connections : List Accepted → List ℕ → Run (List ℕ)
handle_new_client_connections [] watched = out_of_fuel
handle_new_client_connections (refused ∷ rs) watched = ok watched
handle_new_client_connections (accepted conn_sock false added ∷ rs) watched = ok watched
handle_new_client_connections (accepted conn_sock true false ∷ rs) watched = ok watched
handle_new_client_connections (accepted conn_sock true true ∷ rs) watched =
    handle_new_client_connections rs (conn_sock ∷ watched)

module _ {P : Type 0} (sys : System P) (fuel : ℕ) (behind : Bytes) (spare : Bool)
    (server_fd : ℕ) where
  -- A descriptor that is closed is no longer watched.
  unfoldable pub handle_event : Event → Listening P → Run (Listening P)
  unfolding handle_new_client_connections receive_from
  handle_event e l =
      let connected = (do
        watched ← handle_new_client_connections e.accepts l.watched
        ok (record l { watched = watched })) in
      let received = (do
        (closed, p) ← receive_from sys fuel e.fd behind spare e.receives l.progress
        ok (record {
          watched = if closed then remove e.fd l.watched else l.watched;
          progress = p;
        })) in
      if e.fd == server_fd then connected else received

  -- `for (int n = 0; n < nfds; ++n)`, with the works that are run meanwhile.
  unfoldable pub handle_events : List Happening → Listening P → Run (Listening P)
  unfolding handle_event submit_job
  handle_events [] l = ok l
  handle_events (arrived e ∷ es) l = do l1 ← handle_event e l; handle_events es l1
  handle_events (ran work ∷ es) l = do
    s ← submit_job sys fuel work l.progress.state
    handle_events es (put_server l s)

  -- `while(1)`, which ends when `epoll_wait` fails.
  unfoldable pub listen_loop : List Polled → Listening P → Run (Listening P)
  unfolding handle_events
  listen_loop [] l = out_of_fuel
  listen_loop (interrupted ∷ ps) l = listen_loop ps l
  listen_loop (poll_failed ∷ ps) l = ok l
  listen_loop (events es ∷ ps) l = do l1 ← handle_events es l; listen_loop ps l1

  unfoldable pub init_and_listen_epoll_events :
      Host P → List Polled → Progress (Server P) → Run (Progress (Server P))
  unfolding listen_loop
  init_and_listen_epoll_events h polls p =
      let listening = (do
        l ← listen_loop polls (record { watched = server_fd ∷ []; progress = p })
        ok l.progress) in
      if h.listen server_fd
      then (if h.epoll_create then (if h.epoll_ctl server_fd then listening else ok p) else ok p)
      else ok p

module _ {P : Type 0} (sys : System P) (fuel : ℕ) (behind : Bytes) (spare : Bool) (h : Host P) where
  -- What `main` does once the socket is there; what `initializeJobDll` returns is not used.
  unfoldable pub serve :
      ℕ → List Bytes → List Polled → Progress (Server P) → Run (Progress (Server P))
  unfolding start_threads init_and_listen_epoll_events initialize_job_dll
  serve server_tid args polls p = do
    let s = p.state
    (made, j) ← initialize_job_dll sys.malloc_jn s.jobs
    s1 ← start_threads h (threads args) (record s { jobs = j })
    init_and_listen_epoll_events sys fuel behind spare server_tid h polls (record p { state = s1 })

  -- `argv` is what stands behind the program's name. `print_error_and_terminate` is the end.
  unfoldable pub main : List Bytes → List Polled → Progress (Server P) → Run (Progress (Server P))
  unfolding serve choose_port server_alloc_memory init_server_socket make_socket_non_blocking
  main args polls p =
      let listening : Run (Progress (Server P)) =
        elim (init_server_socket h (choose_port h.strtol args)) [
          | none ↦ ok p
          | some server_tid ↦
              let served = serve server_tid args polls p in
              if make_socket_non_blocking h server_tid then served else ok p
        ] in
      if server_alloc_memory h.multicast_groups h.client_hash_map then listening else exit
