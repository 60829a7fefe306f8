-- ===== src/Server/Reached.antt =====
-- The states that the server comes to: by the events of epoll, and by the works of the thread pool in
-- between.
use pyramid.Prelude.{
  refl, ◌++◌, ℕ, ◌≡◌, ◌≢◌, sym, ◌∙◌, subst, Bool, true, false, inl, inr, List, [], ◌∷◌, arith, ◌==◌,
  Bool-cases, if◌then◌else◌, has, has-remove_ne, has-cons_self, has-cons_of_has, remove,
}
use pyramid.Wire.{ok, Bytes}
use pyramid.Wire.Laws.{bind-eq-ok}
use pyramid.Messages.{Progress}
use pyramid.Receive.{Received}
use pyramid.Groups.Added.{IsFresh}
use pyramid.Registry.Reach.{IsSound, calloced, calloced-IsSound}
use pyramid.Server.{System, Server, Work}
use pyramid.Server.Replies.{submit_job}
use pyramid.Server.Events.{receive_from}
use pyramid.Server.Loop.{
  Accepted, refused, accepted, Event, Happening, arrived, ran, put_server, Polled, interrupted,
  poll_failed, events, Listening, handle_new_client_connections, handle_event, handle_events,
  listen_loop,
}
use pyramid.Server.Works.{submit_job-Kept}
use pyramid.Server.Sound.{Sound, Kept-Sound, receive_from-Sound}

module _ {P : Type 0} (sys : System P) (fuel : ℕ) (behind : Bytes) (spare : Bool)
    (server_fd : ℕ) where
  -- An event is handled, or a thread of the pool runs a work.
  infix 40 ◌⟶◌
  pub data ◌⟶◌ : Listening P → Listening P → Type 0 where
    handled :
        {l l' : Listening P} (e : Event)
        → handle_event sys fuel behind spare server_fd e l ≡ ok l'
        → l ⟶ l'
    worked :
        {l : Listening P} {s : Server P} (work : Work)
        → submit_job sys fuel work l.progress.state ≡ ok s
        → l ⟶ put_server l s

  pub data Reached : Listening P → Type 0 where
    started :
        (p : Progress (Server P))
        → p.state.jobs.clients ≡ calloced
        → Reached (record { watched = server_fd ∷ []; progress = p })
    moved : {l l' : Listening P} → Reached l → l ⟶ l' → Reached l'

  -- Each event that the loop handles and each work is a step.
  handle_events-Reached :
      (es : List Happening) (l l' : Listening P)
      → Reached l
      → handle_events sys fuel behind spare server_fd es l ≡ ok l'
      → Reached l'
  unfolding handle_events
  handle_events-Reached [] l l' r e =
      let same : l ≡ l' = cc in subst (λ (m : Listening P). Reached m) same r
  handle_events-Reached (ran work ∷ vs) l l' r e =
      let (s, run, e1) = bind-eq-ok (submit_job sys fuel work l.progress.state) _ e in
      handle_events-Reached vs (put_server l s) l' (moved r (worked work run)) e1
  handle_events-Reached (arrived v ∷ vs) l l' r e =
      let (l1, run, e1) = bind-eq-ok (handle_event sys fuel behind spare server_fd v l) _ e in
      handle_events-Reached vs l1 l' (moved r (handled v run)) e1

  pub listen_loop-Reached :
      (ps : List Polled) (l l' : Listening P)
      → Reached l
      → listen_loop sys fuel behind spare server_fd ps l ≡ ok l'
      → Reached l'
  unfolding listen_loop
  listen_loop-Reached [] l l' r e = cc
  listen_loop-Reached (interrupted ∷ ps) l l' r e = listen_loop-Reached ps l l' r e
  listen_loop-Reached (poll_failed ∷ ps) l l' r e =
      let same : l ≡ l' = cc in subst (λ (m : Listening P). Reached m) same r
  listen_loop-Reached (events es ∷ ps) l l' r e =
      let (l1, run, e1) = bind-eq-ok (handle_events sys fuel behind spare server_fd es l) _ e in
      listen_loop-Reached ps l1 l' (handle_events-Reached es l l1 r run) e1

  -- The server's own descriptor is watched, and the registry is well-formed.
  abbrev pub IsServing : Listening P → Type 0
  IsServing l = (has server_fd l.watched ≡ true) × Sound l.progress.state

  connected-watched :
      (rs : List Accepted) (xs ys : List ℕ)
      → has server_fd xs ≡ true
      → handle_new_client_connections rs xs ≡ ok ys
      → has server_fd ys ≡ true
  unfolding handle_new_client_connections
  connected-watched [] xs ys h e = cc
  connected-watched (refused ∷ rs) xs ys h e = let same : xs ≡ ys = cc in rw (← same) h
  connected-watched (accepted c false b ∷ rs) xs ys h e = let same : xs ≡ ys = cc in rw (← same) h
  connected-watched (accepted c true false ∷ rs) xs ys h e =
      let same : xs ≡ ys = cc in rw (← same) h
  connected-watched (accepted c true true ∷ rs) xs ys h e =
      connected-watched rs (c ∷ xs) ys (has-cons_of_has server_fd c xs h) e

  closed-watched :
      (closed : Bool) (fd : ℕ) (xs : List ℕ)
      → server_fd ≢ fd
      → has server_fd xs ≡ true
      → has server_fd (if closed then remove fd xs else xs) ≡ true
  closed-watched true fd xs ne h = has-remove_ne server_fd fd xs ne ∙ h
  closed-watched false fd xs ne h = h

  module _ (fresh : IsFresh sys.malloc_group) (fresh' : IsFresh sys.malloc_info) where
    handle_event-IsServing :
        (e : Event) (l l' : Listening P)
        → handle_event sys fuel behind spare server_fd e l ≡ ok l'
        → IsServing l
        → IsServing l'
    unfolding handle_event
    handle_event-IsServing v l l' = elim (Bool-cases (v.fd == server_fd)) [
      | inl new ↦ rw new λ e h.
          let (xs, run, e1) = bind-eq-ok (handle_new_client_connections v.accepts l.watched) _ e in
          let same : record l { watched = xs } ≡ l' = cc in
          subst (λ (m : Listening P). IsServing m) same
            (connected-watched v.accepts l.watched xs h.0 run, h.1)
      | inr client ↦ rw client λ e h.
          let (r, run, e1) =
            bind-eq-ok (receive_from sys fuel v.fd behind spare v.receives l.progress) _ e in
          let left : List ℕ = if r.0 then remove v.fd l.watched else l.watched in
          let next : Listening P = record { watched = left; progress = r.1 } in
          let same : next ≡ l' = cc in
          let ne : server_fd ≢ v.fd = ground arith in
          subst (λ (m : Listening P). IsServing m) same
            (
              closed-watched r.0 v.fd l.watched ne h.0,
              receive_from-Sound sys fuel fresh fresh' v.fd behind spare r.0 v.receives l.progress
                  r.1 run h.1,
            )
    ]

    step-IsServing : (l l' : Listening P) → l ⟶ l' → IsServing l → IsServing l'
    step-IsServing l l' (handled e run) h = handle_event-IsServing e l l' run h
    step-IsServing l l' (worked {s = s} work run) h = (
      h.0,
      Kept-Sound l.progress.state s (submit_job-Kept sys fuel work l.progress.state s run) h.1,
    )

    -- The server's loop takes every result of `accept`, up to the one that there are no more.
    abbrev pub IsAccepting : Listening P → Type 0
    IsAccepting l =
        (rs : List Accepted) (receives : List Received)
        → (l' : Listening P) × (handle_event sys fuel behind spare server_fd
              (record { fd = server_fd; accepts = rs ++ refused ∷ []; receives = receives }) l
            ≡ ok l')
          × IsServing l'

    all_taken :
        (rs : List Accepted) (xs : List ℕ)
        → (ys : List ℕ) × (handle_new_client_connections (rs ++ refused ∷ []) xs ≡ ok ys)
    unfolding handle_new_client_connections
    all_taken [] xs = (xs, refl)
    all_taken (refused ∷ rs) xs = (xs, refl)
    all_taken (accepted c false b ∷ rs) xs = (xs, refl)
    all_taken (accepted c true false ∷ rs) xs = (xs, refl)
    all_taken (accepted c true true ∷ rs) xs = all_taken rs (c ∷ xs)

    serving-IsAccepting : (l : Listening P) → IsServing l → IsAccepting l
    unfolding handle_event
    serving-IsAccepting l h rs receives =
        let (ys, taken) = all_taken rs l.watched in
        let own : (server_fd == server_fd) ≡ true = ground arith in
        (
          record l { watched = ys },
          rw (own, taken) refl,
          (connected-watched (rs ++ refused ∷ []) l.watched ys h.0 taken, h.1),
        )

    serving : (l : Listening P) → Reached l → IsServing l
    serving l (started p zeroed) =
        (has-cons_self server_fd [], subst IsSound (sym zeroed) calloced-IsSound)
    serving l' (moved {l = l} r s) = step-IsServing l l' s (serving l r)

    -- In every state that is reached by events and works in any order, each of them handled to its
    -- end (it leaves no array, does not wait for ever and does not end the program), the server
    -- watches its own descriptor, and the registry that the events change together is well-formed.
    -- There the server goes on accepting: an event of its own descriptor is handled to its end,
    -- whatever `accept` returns until it has no more, and leads to such a state again. The tables
    -- start zeroed and the allocators return NULL or a free address.
    pub Reached-IsServing : (l : Listening P) → Reached l → IsServing l × IsAccepting l
    Reached-IsServing l r = let h : IsServing l = serving l r in (h, serving-IsAccepting l h)
