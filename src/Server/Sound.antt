-- ===== src/Server/Sound.antt =====
-- The registry stays well-formed through everything that server/src/server.c does with a client.
use pyramid.Prelude.{
  ℕ, ◌≡◌, sym, subst, Bool, true, false, inl, inr, List, Option, none, some, ◌/◌, ◌==◌, Bool-cases,
  if◌then◌else◌,
}
use pyramid.Wire.{ok, Bytes}
use pyramid.Wire.Laws.{bind-eq-ok}
use pyramid.Tlv.{Tlv}
use pyramid.Tlv.Attribute.{join_group}
use pyramid.Messages.{Progress}
use pyramid.Receive.{Received, receive_data}
use pyramid.Receive.Invariant.{receive_data-Keeps}
use pyramid.Groups.Added.{IsFresh}
use pyramid.Registry.{
  Clients, server_get_client_info_head, server_add_one_client_fd, server_del_one_client_fd,
}
use pyramid.Registry.Reach.{IsSound, added-IsSound, removed-IsSound}
use pyramid.Registry.Fuel.{server_del_one_client_fd-le}
use pyramid.Jobs.Kept.{forget}
use pyramid.Server.{System, Server}
use pyramid.Server.Events.{
  put_clients, join, reassign_lost, handle_value, has_case, handle_data, disconnect, receive_from,
}
use pyramid.Server.Works.{reassign_lost-Kept, handle_value-Kept}

-- The well-formedness does not speak of what the jobs set.
forget-IsSound : (c : Clients) → IsSound c → IsSound (forget c)
forget-IsSound c (buckets, members, chain, is) = (
  buckets,
  members,
  chain,
  record {
    groups = is.groups;
    lists = is.lists;
    counted = is.counted;
    placed = is.placed;
    chained = is.chained;
    distinct = is.distinct;
    within = is.within;
    owned = is.owned;
    owner = is.owner;
    member = is.member;
  },
)

recall-IsSound : (c : Clients) → IsSound (forget c) → IsSound c
recall-IsSound c (buckets, members, chain, is) = (
  buckets,
  members,
  chain,
  record {
    groups = is.groups;
    lists = is.lists;
    counted = is.counted;
    placed = is.placed;
    chained = is.chained;
    distinct = is.distinct;
    within = is.within;
    owned = is.owned;
    owner = is.owner;
    member = is.member;
  },
)

kept-IsSound : (c c' : Clients) → forget c' ≡ forget c → IsSound c → IsSound c'
kept-IsSound c c' e h = recall-IsSound c' (subst IsSound (sym e) (forget-IsSound c h))

abbrev pub Sound : {P : Type 0} → Server P → Type 0
Sound s = IsSound s.jobs.clients

pub Kept-Sound :
    {P : Type 0} (s s' : Server P)
    → forget s'.jobs.clients ≡ forget s.jobs.clients
    → Sound s
    → Sound s'
Kept-Sound s s' e h = kept-IsSound s.jobs.clients s'.jobs.clients e h

module _ {P : Type 0} (sys : System P) (fuel : ℕ) (fresh : IsFresh sys.malloc_group)
    (fresh' : IsFresh sys.malloc_info) where
  join-Sound :
      (client_fd n_gids : ℕ) (g_groups : List ℕ) (peer : Option (ℕ × ℕ)) (s s' : Server P)
      → join sys fuel client_fd peer n_gids g_groups s ≡ ok s'
      → Sound s
      → Sound s'
  unfolding join
  join-Sound client_fd n_gids g_groups none s s' e h =
      let same : s ≡ s' = cc in subst (λ (t : Server P). Sound t) same h
  join-Sound client_fd n_gids g_groups (some sa) s s' e h =
      let (r, added, e1) =
        bind-eq-ok
          (server_add_one_client_fd sys.malloc_group sys.malloc_info fuel
            (server_get_client_info_head client_fd) client_fd sa g_groups n_gids s.jobs.clients)
          _ e in
      let same : put_clients s r.1 ≡ s' = cc in
      subst (λ (t : Server P). Sound t) same
        (added-IsSound sys.malloc_group sys.malloc_info fresh fresh' fuel client_fd sa g_groups
          n_gids s.jobs.clients r.1 r.0 h added)

  disconnect-Sound :
      (client_fd : ℕ) (s s' : Server P)
      → disconnect sys fuel client_fd s ≡ ok s'
      → Sound s
      → Sound s'
  unfolding disconnect
  disconnect-Sound client_fd s s' e h =
      let (t, lost, e1) = bind-eq-ok (reassign_lost sys fuel client_fd s) _ e in
      let head = server_get_client_info_head client_fd in
      let c : Clients = t.1.jobs.clients in
      let (r, deleted, e2) = bind-eq-ok (server_del_one_client_fd fuel head client_fd c) _ e1 in
      let same : put_clients t.1 r.1 ≡ s' = cc in
      subst (λ (u : Server P). Sound u) same
        (removed-IsSound sys.malloc_group sys.malloc_info client_fd fuel c r.1 r.0
          (Kept-Sound s t.1 (reassign_lost-Kept sys fuel client_fd s t.1 t.0 lost) h)
          (λ g more. server_del_one_client_fd-le fuel g head client_fd c r.1 r.0 more deleted))

  -- The cases of `handle_data`.
  choose-Sound :
      (client_fd : ℕ) (tlv : Tlv) (g_groups : List ℕ) (s s' : Server P)
      → (if tlv.type == join_group
          then join sys fuel client_fd (sys.getpeername client_fd) (tlv.length / 4) g_groups s
          else if has_case sys fuel tlv.type
          then handle_value sys fuel client_fd tlv tlv.value s
          else ok s)
        ≡ ok s'
      → Sound s
      → Sound s'
  choose-Sound client_fd tlv g_groups s s' = elim (Bool-cases (tlv.type == join_group)) [
    | inl joins ↦
        rw joins (join-Sound client_fd (tlv.length / 4) g_groups (sys.getpeername client_fd) s s')
    | inr other ↦ elim (Bool-cases (has_case sys fuel tlv.type)) [
      | inl known ↦
          rw (other, known)
            λ e h. Kept-Sound s s' (handle_value-Kept sys fuel client_fd tlv tlv.value s s' e) h
      | inr unknown ↦
          rw (other, unknown)
            λ e h. let same : s ≡ s' = cc in subst (λ (t : Server P). Sound t) same h
    ]
  ]

  handle_data-Sound :
      (client_fd : ℕ) (tlv : Tlv) (p p' : Progress (Server P))
      → handle_data sys fuel client_fd tlv p ≡ ok p'
      → Sound p.state
      → Sound p'.state
  unfolding handle_data
  handle_data-Sound client_fd tlv p p' e h =
      let (s1, chosen, e1) = bind-eq-ok _ (λ (t : Server P). ok (record p { state = t })) e in
      let same : record p { state = s1 } ≡ p' = cc in
      subst (λ (q : Progress (Server P)). Sound q.state) same
        (choose-Sound client_fd tlv p.g_groups p.state s1 chosen h)

  pub receive_from-Sound :
      (client_fd : ℕ) (behind : Bytes) (spare done : Bool) (rs : List Received)
      (p p' : Progress (Server P))
      → receive_from sys fuel client_fd behind spare rs p ≡ ok (done, p')
      → Sound p.state
      → Sound p'.state
  unfolding receive_from
  receive_from-Sound client_fd behind spare done rs p p' e h =
      let (r, received, e1) =
        bind-eq-ok (receive_data (handle_data sys fuel client_fd) fuel behind spare rs p) _ e in
      let (s, left, e2) =
        bind-eq-ok (if r.0 then disconnect sys fuel client_fd r.1.state else ok r.1.state) _ e1 in
      let q : Progress (Server P) = record r.1 { state = s } in
      let same : q ≡ p' = cc in
      subst (λ (q : Progress (Server P)). Sound q.state) same
        (ended r.0 r.1.state s left (
          receive_data-Keeps (handle_data sys fuel client_fd) (λ (t : Server P). Sound t)
            (handle_data-Sound client_fd) fuel behind spare rs r.0 p r.1 received h))
    where
      ended :
          (b : Bool) (s s' : Server P)
          → (if b then disconnect sys fuel client_fd s else ok s) ≡ ok s'
          → Sound s
          → Sound s'
      ended true s s' e h = disconnect-Sound client_fd s s' e h
      ended false s s' e h = let same : s ≡ s' = cc in subst (λ (t : Server P). Sound t) same h
