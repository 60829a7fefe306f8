-- ===== src/Server/Memberships.antt =====
-- `sh_display_all_multicast_groups` of server/src/server_helper.c: what a walk over the groups sends.
use pyramid.Prelude.{
  ℕ, zero, suc, ◌-◌, ◌<◌, ◌≤◌, ◌≡◌, ◌≢◌, inl, inr, refl, sym, ap, subst, ◌∙◌, true, false, some,
  List, [], ◌∷◌, ◌++◌, arith, length, All, All-append, map, has, ◌==◌,
}
use pyramid.Wire.{ok, ◌>>=◌, Bytes}
use pyramid.Wire.Laws.{bind-cong}
use pyramid.Tlv.Attribute.{cli_data}
use pyramid.Links.{deref}
use pyramid.Links.Chain.{Leads}
use pyramid.Links.Lists.{deref-ok, ne_zero}
use pyramid.Groups.{group_links}
use pyramid.Registry.{Clients, bucket_links}
use pyramid.Registry.Invariant.{IsRegistry}
use pyramid.Jobs.{Jobs}
use pyramid.Server.{System, Server}
use pyramid.Server.Display.{
  add_text, send_rest, show_group, show_groups, sh_display_all_multicast_groups, group_entry,
}
use pyramid.Server.Entries.{group_entry-IsEntry}
use pyramid.Server.Chunks.{
  chunks, concat, concat-chunks, add_all, after_chunks, put_socket, IsEntry, IsSmall,
}
use pyramid.Server.Buffer.{add_all-stack}
use pyramid.Server.Unchanged.{add_text-jobs, add_all-append, add_all-jobs}

-- The text for the node `cg`: the group's number, and the descriptor of the node's client.
abbrev pub membership : Clients → ℕ → Bytes
membership c cg = group_entry (c.groups.gid cg) (c.cfd (c.groups.ci cg))

-- One text for each node of the groups from 1000 - `n` on, in their order.
unfoldable pub memberships : Clients → (ℕ → List ℕ) → ℕ → List Bytes
memberships c members zero = []
memberships c members (suc n) =
    map (membership c) (members (1000 - suc n)) ++ memberships c members n

module _ {P : Type 0} (sys : System P) (fuel fd : ℕ) where
  show_group-null : (k : ℕ) (b : Bytes × ℕ × Server P) → show_group sys fuel (suc k) fd 0 b ≡ ok b
  unfolding show_group
  show_group-null k b = refl

  show_group-step :
      (k cg : ℕ) (b : Bytes × ℕ × Server P)
      → cg ≢ 0
      → deref b.2.jobs.clients.groups.cg_live cg ≡ ok tt
      → deref b.2.jobs.clients.ci_live (b.2.jobs.clients.groups.ci cg) ≡ ok tt
      → show_group sys fuel (suc k) fd cg b ≡ (
          add_text sys fuel fd (membership b.2.jobs.clients cg) cli_data b
          >>= show_group sys fuel k fd (b.2.jobs.clients.groups.n cg))
  unfolding show_group
  show_group-step k cg b ne node client =
      let not_null : (cg == 0) ≡ false = ground arith in rw (not_null, node, client) refl

  module _ (j : Jobs) where
    show_group-add_all :
        (k l cg : ℕ) (xs : List ℕ) (b : Bytes × ℕ × Server P)
        → b.2.jobs ≡ j
        → Leads j.clients.groups.n j.clients.groups.p l cg xs
        → ((a : ℕ) → has a xs ≡ true → deref j.clients.groups.cg_live a ≡ ok tt)
        → ((a : ℕ) → has a xs ≡ true → deref j.clients.ci_live (j.clients.groups.ci a) ≡ ok tt)
        → length xs < k
        → show_group sys fuel k fd cg b
          ≡ add_all sys fuel fd cli_data (map (membership j.clients) xs) b
    show_group-add_all zero l cg xs b same c nodes clients short = absurd (omega arith)
    show_group-add_all (suc k) l cg [] b same c nodes clients short = rw c (show_group-null k b)
    show_group-add_all (suc k) l cg (x ∷ xs) b same (e, ne, before, c) nodes clients short =
        let node : deref b.2.jobs.clients.groups.cg_live x ≡ ok tt =
          rw same (nodes x (ground arith)) in
        let client : deref b.2.jobs.clients.ci_live (b.2.jobs.clients.groups.ci x) ≡ ok tt =
          rw same (clients x (ground arith)) in
        let step : show_group sys fuel (suc k) fd x b ≡ (
            add_text sys fuel fd (membership j.clients x) cli_data b
            >>= show_group sys fuel k fd (j.clients.groups.n x)) =
          rw⁻¹ same (show_group-step k x b ne node client) in
        rw e (
          step
          ∙ bind-cong (add_text sys fuel fd (membership j.clients x) cli_data b)
              (show_group sys fuel k fd (j.clients.groups.n x))
              (add_all sys fuel fd cli_data (map (membership j.clients) xs))
              (λ b' sent.
                show_group-add_all k x (j.clients.groups.n x) xs b'
                  (add_text-jobs sys fuel fd (membership j.clients x) cli_data b b' sent ∙ same) c
                  (λ a h. nodes a (ground arith)) (λ a h. clients a (ground arith)) (omega arith)))

    module _ {buckets members chain : ℕ → List ℕ} (is : IsRegistry j.clients buckets members chain)
        (enough : 256 ≤ fuel) where
      node_read : (i a : ℕ) → has a (members i) ≡ true → deref j.clients.groups.cg_live a ≡ ok tt
      node_read i a h =
          let list = is.groups.lists i in
          deref-ok j.clients.groups.cg_live a
            (ne_zero j.clients.groups.cg_live a (group_links j.clients.groups i) (members i) list h
              a h)
            (list.alive a h)

      client_read :
          (i a : ℕ)
          → has a (members i) ≡ true
          → deref j.clients.ci_live (j.clients.groups.ci a) ≡ ok tt
      client_read i a h =
          let (k, there) = is.owner i a h in
          let list = is.lists k in
          let x = j.clients.groups.ci a in
          deref-ok j.clients.ci_live x
            (ne_zero j.clients.ci_live x (bucket_links j.clients k) (buckets k) list there x there)
            (list.alive x there)

      show_group-heads :
          (i : ℕ) (b : Bytes × ℕ × Server P)
          → b.2.jobs ≡ j
          → show_group sys fuel fuel fd (b.2.jobs.clients.groups.h i) b
            ≡ add_all sys fuel fd cli_data (map (membership j.clients) (members i)) b
      show_group-heads i b same =
          let head : b.2.jobs.clients.groups.h i ≡ j.clients.groups.h i =
            ap (λ (k : Jobs). k.clients.groups.h i) same in
          subst
            (λ (cg : ℕ).
              show_group sys fuel fuel fd cg b
              ≡ add_all sys fuel fd cli_data (map (membership j.clients) (members i)) b)
            (sym head)
            (show_group-add_all fuel 0 (j.clients.groups.h i) (members i) b same
              (is.groups.lists i).leads (node_read i) (client_read i)
              (omega (arith, is.groups.bounded i)))

      show_groups-add_all :
          (n : ℕ) (b : Bytes × ℕ × Server P)
          → b.2.jobs ≡ j
          → show_groups sys fuel n fd b
            ≡ add_all sys fuel fd cli_data (memberships j.clients members n) b
      unfolding show_groups memberships
      show_groups-add_all zero b same = refl
      show_groups-add_all (suc n) b same =
          let texts : List Bytes = map (membership j.clients) (members (1000 - suc n)) in
          ap (λ m. m >>= show_groups sys fuel n fd) (show_group-heads (1000 - suc n) b same)
          ∙ bind-cong (add_all sys fuel fd cli_data texts b) (show_groups sys fuel n fd)
              (add_all sys fuel fd cli_data (memberships j.clients members n))
              (λ b' sent.
                show_groups-add_all n b' (add_all-jobs sys fuel fd cli_data texts b b' sent ∙ same))
          ∙ sym (add_all-append sys fuel fd cli_data texts (memberships j.clients members n) b)

-- The numbers of the registry are 32-bit ones.
abbrev pub Are32 : Clients → Type 0
Are32 c = (a : ℕ) → (c.cfd a < 4294967296) × (c.groups.gid a < 4294967296)

memberships-IsEntry :
    (c : Clients) (members : ℕ → List ℕ) → Are32 c → (n : ℕ) → All IsEntry (memberships c members n)
unfolding memberships
memberships-IsEntry c members small zero = tt
memberships-IsEntry c members small (suc n) =
    All-append IsEntry (map (membership c) (members (1000 - suc n))) (memberships c members n)
      (all (members (1000 - suc n))) (memberships-IsEntry c members small n)
  where
    all : (xs : List ℕ) → All IsEntry (map (membership c) xs)
    all [] = tt
    all (x ∷ xs) = (
      group_entry-IsEntry (c.groups.gid x) (c.cfd (c.groups.ci x)) (small x).1
          (small (c.groups.ci x)).0,
      all xs,
    )

module _ {P : Type 0} (sys : System P) (f fd : ℕ)
    (takes : (c n : ℕ) → sys.send fd c n ≡ some n) where
  -- On a well-formed registry the list of the groups goes out as one frame for each chunk, no node
  -- and no client that is read has been freed, and the chunks together are one text for each node,
  -- group by group: none is lost, cut or sent twice. No chunk is longer than `encode` has room
  -- for, the numbers are of 32 bits, the local array has 1024 bytes, there are 256 rounds or more,
  -- and `send` takes every frame whole.
  pub sh_display_all_multicast_groups-chunks :
      (s : Server P) (buckets members chain : ℕ → List ℕ)
      → IsRegistry s.jobs.clients buckets members chain
      → Are32 s.jobs.clients
      → 256 ≤ suc (suc f)
      → 1024 ≤ length sys.stack
      → All IsSmall (chunks [] (memberships s.jobs.clients members 1000))
      → (sh_display_all_multicast_groups sys (suc (suc f)) fd s
          ≡ ok (
              put_socket fd s (
                after_chunks
                  (sys.send fd)
                  cli_data
                  (chunks [] (memberships s.jobs.clients members 1000))
                  (s.sockets fd))))
        × (concat (chunks [] (memberships s.jobs.clients members 1000))
            ≡ concat (memberships s.jobs.clients members 1000))
  unfolding sh_display_all_multicast_groups
  sh_display_all_multicast_groups-chunks s buckets members chain is small enough room fits =
      let texts = memberships s.jobs.clients members 1000 in
      (
        ap (λ m. m >>= send_rest sys (suc (suc f)) fd cli_data)
              (show_groups-add_all sys (suc (suc f)) fd s.jobs is enough 1000 (sys.stack, 0, s)
                refl)
            ∙ add_all-stack sys f fd cli_data (inr (inl refl)) takes texts s room
                (memberships-IsEntry s.jobs.clients members small 1000) fits,
        concat-chunks [] texts,
      )
