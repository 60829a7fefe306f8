-- ===== src/Server/Main.antt =====
-- `main` of server/src/server.c leaves a well-formed registry, whatever happens while it runs.
use pyramid.Prelude.{
  ℕ, ◌≡◌, sym, ap, ◌∙◌, subst, Bool, inl, inr, List, [], ◌∷◌, arith, Bool-cases, Option-cases,
}
use pyramid.Wire.{Run, ok, exit, Bytes}
use pyramid.Wire.Laws.{bind-eq-ok}
use pyramid.Messages.{Progress}
use pyramid.Groups.Added.{IsFresh}
use pyramid.Registry.Reach.{calloced, calloced-IsSound, IsSound}
use pyramid.Jobs.{Jobs}
use pyramid.Jobs.Flow.{initialize_job_dll}
use pyramid.Server.{System, Server}
use pyramid.Server.Start.{choose_port, server_alloc_memory}
use pyramid.Server.Loop.{
  Polled, Listening, Host, make_socket_non_blocking, init_server_socket, init_all_locks,
  start_threads, threads, listen_loop, init_and_listen_epoll_events, serve, main,
}
use pyramid.Server.Sound.{Sound}
use pyramid.Server.Reached.{started, listen_loop-Reached, Reached-IsServing}

initialize_job_dll-clients :
    (malloc_jn : (ℕ → Bool) → ℕ) (s s' : Jobs) (r : Bool)
    → initialize_job_dll malloc_jn s ≡ ok (r, s')
    → s'.clients ≡ s.clients
unfolding initialize_job_dll
initialize_job_dll-clients malloc_jn s s' r e = grind arith

module _ {P : Type 0} (sys : System P) (fuel : ℕ) (behind : Bytes) (spare : Bool) (h : Host P)
    (fresh : IsFresh sys.malloc_group) (fresh' : IsFresh sys.malloc_info) where
  start_threads-jobs :
      (num : Bytes) (s s' : Server P) → start_threads h num s ≡ ok s' → s'.jobs ≡ s.jobs
  unfolding start_threads init_all_locks
  start_threads-jobs num s s' e = grind arith

  abbrev Zeroed : Progress (Server P) → Type 0
  Zeroed p = p.state.jobs.clients ≡ calloced

  abbrev Leaves : Run (Progress (Server P)) → Type 0
  Leaves r = (p : Progress (Server P)) → r ≡ ok p → Sound p.state

  nothing_done : (p : Progress (Server P)) → Zeroed p → Leaves (ok p)
  nothing_done p zeroed q e =
      let same : p ≡ q = cc in
      subst (λ (t : Progress (Server P)). Sound t.state) same
        (subst IsSound (sym zeroed) calloced-IsSound)

  listens-Leaves :
      (server_fd : ℕ) (polls : List Polled) (p : Progress (Server P))
      → Zeroed p
      → Leaves (init_and_listen_epoll_events sys fuel behind spare server_fd h polls p)
  unfolding init_and_listen_epoll_events
  listens-Leaves server_fd polls p zeroed = elim (Bool-cases (h.listen server_fd)) [
    | inr deaf ↦ rw deaf (nothing_done p zeroed)
    | inl heard ↦ elim (Bool-cases h.epoll_create) [
      | inr without ↦ rw (heard, without) (nothing_done p zeroed)
      | inl created ↦ elim (Bool-cases (h.epoll_ctl server_fd)) [
        | inr unwatched ↦ rw (heard, created, unwatched) (nothing_done p zeroed)
        | inl added ↦
            rw (heard, created, added)
              λ q e.
                let l0 : Listening P = record { watched = server_fd ∷ []; progress = p } in
                let (l, run, e1) =
                  bind-eq-ok (listen_loop sys fuel behind spare server_fd polls l0) _ e in
                let same : l.progress ≡ q = cc in
                subst (λ (t : Progress (Server P)). Sound t.state) same
                  (Reached-IsServing sys fuel behind spare server_fd fresh fresh' l (
                    listen_loop-Reached sys fuel behind spare server_fd polls l0 l
                      (started p zeroed) run)).0.1
      ]
    ]
  ]

  serve-Leaves :
      (server_tid : ℕ) (args : List Bytes) (polls : List Polled) (p : Progress (Server P))
      → Zeroed p
      → Leaves (serve sys fuel behind spare h server_tid args polls p)
  unfolding serve
  serve-Leaves server_tid args polls p zeroed q e =
      let s : Server P = p.state in
      let (made, run, e1) = bind-eq-ok (initialize_job_dll sys.malloc_jn s.jobs) _ e in
      let s0 : Server P = record s { jobs = made.1 } in
      let (s1, ready, e2) = bind-eq-ok (start_threads h (threads args) s0) _ e1 in
      let quiet : s1.jobs ≡ made.1 = start_threads-jobs (threads args) s0 s1 ready in
      listens-Leaves server_tid polls (record p { state = s1 })
        (ap (λ (j : Jobs). j.clients) quiet
          ∙ (initialize_job_dll-clients sys.malloc_jn s.jobs made.1 made.0 run ∙ zeroed))
        q e2

  -- Where `main` returns, after any arguments, any events and any works that the threads run between
  -- the events, the registry is well-formed. The tables start zeroed and the allocators return NULL
  -- or a free address.
  pub main-Sound :
      (args : List Bytes) (polls : List Polled) (p p' : Progress (Server P))
      → p.state.jobs.clients ≡ calloced
      → main sys fuel behind spare h args polls p ≡ ok p'
      → Sound p'.state
  unfolding main
  main-Sound args polls p p' zeroed =
      elim (Bool-cases (server_alloc_memory h.multicast_groups h.client_hash_map)) [
        | inr failed ↦ rw failed λ e. absurd (ends e)
        | inl tables ↦ elim (Option-cases (init_server_socket h (choose_port h.strtol args))) [
          | inl no_socket ↦ rw (tables, no_socket) (nothing_done p zeroed p')
          | inr (fd, opened) ↦ elim (Bool-cases (make_socket_non_blocking h fd)) [
            | inr blocking ↦ rw (tables, opened, blocking) (nothing_done p zeroed p')
            | inl ready ↦ rw (tables, opened, ready) (serve-Leaves fd args polls p zeroed p')
          ]
        ]
      ]
    where
      ends : {q : Progress (Server P)} → ◌≡◌ {A = Run (Progress (Server P))} exit (ok q) → ⊥
      ends e = cc
