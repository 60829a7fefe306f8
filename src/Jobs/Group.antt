-- ===== src/Jobs/Group.antt =====
-- The loop of `initJob` in server/src/jobs.c over the clients of a group.
use pyramid.Prelude.{
  ℕ, zero, suc, ◌+◌, ◌<◌, ◌≡◌, ◌≢◌, refl, ◌∙◌, Bool, true, false, List, [], ◌∷◌, ◌++◌, length,
  arith, update, inl, inr, Bool-cases, if◌then◌else◌, append-nil, subst, length-append,
  append_assoc,
}
use pyramid.Wire.{ok}
use pyramid.Links.{deref, is_null}
use pyramid.Groups.{Groups}
use pyramid.Groups.Leaving.{Chain}
use pyramid.Registry.{Clients, server_update_job_node}
use pyramid.Jobs.{Jobs, set_busy}
use pyramid.Jobs.Reserve.{reserve, reserve_all}
use pyramid.Jobs.Reserved.{
  IsJob, with_node, add_client_to_job-with_node, with_node-IsJob, IsJob-clients,
}

-- The next calls of `malloc` return the addresses `ns`, which are free.
abbrev pub Gives : ((ℕ → Bool) → ℕ) → (ℕ → Bool) → List ℕ → Type 0
Gives malloc live [] = Unit
Gives malloc live (n ∷ ns) =
    (malloc live ≡ n) × (n ≢ 0) × (live n ≡ false) × Gives malloc (update live n true) ns

-- The clients of the list that are not busy, each once.
abbrev pub idle : (ℕ → Bool) → List ℕ → List ℕ
idle busy [] = []
idle busy (c ∷ cs) = if busy c then idle busy cs else c ∷ idle (update busy c true) cs

-- The clients of the nodes of a group.
abbrev pub clients_of : Groups → List ℕ → List ℕ
clients_of g [] = []
clients_of g (x ∷ xs) = g.ci x ∷ clients_of g xs

-- The nodes of the group are allocated, and so are their clients.
abbrev pub MembersLive : Clients → List ℕ → Type 0
MembersLive c [] = Unit
MembersLive c (x ∷ xs) =
    (c.groups.cg_live x ≡ true)
    × (c.groups.ci x ≢ 0)
    × (c.ci_live (c.groups.ci x) ≡ true)
    × MembersLive c xs

abbrev pub reserved : ℕ → ℕ → ℕ → Jobs → Jobs
reserved jn node client s =
    let w : Jobs = with_node jn node client s in
    record w {
      clients = record s.clients {
        jn = update s.clients.jn client jn;
        busy = update s.clients.busy client true;
      };
    }

-- The nodes are made for the clients.
abbrev pub reserved_all : ℕ → List ℕ → List ℕ → Jobs → Jobs
reserved_all jn [] cs s = s
reserved_all jn (n ∷ ns) [] s = s
reserved_all jn (n ∷ ns) (c ∷ cs) s = reserved_all jn ns cs (reserved jn n c s)

module _ (malloc_cn : (ℕ → Bool) → ℕ) (jn : ℕ) where
  reserve-reserved :
      (node client : ℕ) (s : Jobs) (old : List ℕ)
      → IsJob s jn old
      → malloc_cn s.cn_live ≡ node
      → node ≢ 0
      → s.cn_live node ≡ false
      → length old + 1 < 2147483648
      → client ≢ 0
      → s.clients.ci_live client ≡ true
      → (reserve malloc_cn jn client s ≡ ok (node, reserved jn node client s))
        × IsJob (reserved jn node client s) jn (old ++ node ∷ [])
  unfolding reserve set_busy deref server_update_job_node
  reserve-reserved node client s old is same ne free few set live =
      let client_set : is_null client ≡ false = ground arith in
      let is' = with_node-IsJob malloc_cn jn client s old is (rw same ne) (rw same free) few in
      (
        rw
            (
              add_client_to_job-with_node malloc_cn jn client s old is (rw same ne) (rw same free)
                  few,
              client_set,
              live,
              same,
            )
            refl,
        IsJob-clients _ (with_node jn node client s) jn (old ++ node ∷ [])
            (subst (λ n. IsJob (with_node jn n client s) jn (old ++ n ∷ [])) same is'),
      )

  -- A round for a client that is busy, and for one that is not.
  round_busy :
      (f x : ℕ) (gs : List ℕ) (s : Jobs)
      → x ≢ 0
      → MembersLive s.clients (x ∷ gs)
      → s.clients.busy (s.clients.groups.ci x) ≡ true
      → reserve_all malloc_cn (suc f) x jn s ≡ reserve_all malloc_cn f (s.clients.groups.n x) jn s
  unfolding reserve_all deref
  round_busy f x gs s ne live busy =
      let set : is_null x ≡ false = ground arith in
      let client_set : is_null (s.clients.groups.ci x) ≡ false = ground arith in
      rw (set, live.0, client_set, live.2, busy) refl

  round_idle :
      (f x node : ℕ) (gs : List ℕ) (s s1 : Jobs)
      → x ≢ 0
      → MembersLive s.clients (x ∷ gs)
      → s.clients.busy (s.clients.groups.ci x) ≡ false
      → reserve malloc_cn jn (s.clients.groups.ci x) s ≡ ok (node, s1)
      → reserve_all malloc_cn (suc f) x jn s ≡ reserve_all malloc_cn f (s.clients.groups.n x) jn s1
  unfolding reserve_all deref
  round_idle f x node gs s s1 ne live free made =
      let set : is_null x ≡ false = ground arith in
      let client_set : is_null (s.clients.groups.ci x) ≡ false = ground arith in
      rw (set, live.0, client_set, live.2, free, made) refl

  abbrev Fills : ℕ → ℕ → List ℕ → List ℕ → List ℕ → Jobs → Type 0
  Fills fuel cg ns old cs s =
      (reserve_all malloc_cn fuel cg jn s ≡ ok (reserved_all jn ns cs s))
      × IsJob (reserved_all jn ns cs s) jn (old ++ ns)

  MembersLive-reserved :
      (node client : ℕ) (gs : List ℕ) (s : Jobs)
      → MembersLive s.clients gs
      → MembersLive (reserved jn node client s).clients gs
  MembersLive-reserved node client [] s live = tt
  MembersLive-reserved node client (x ∷ gs) s live =
      (live.0, live.1, live.2, MembersLive-reserved node client gs s live.3)

  busy_round :
      (f x : ℕ) (gs ns old : List ℕ) (s : Jobs)
      → x ≢ 0
      → MembersLive s.clients (x ∷ gs)
      → s.clients.busy (s.clients.groups.ci x) ≡ true
      → Fills f
          (s.clients.groups.n x)
          ns
          old
          (idle s.clients.busy (clients_of s.clients.groups gs))
          s
      → Fills (suc f) x ns old (idle s.clients.busy (clients_of s.clients.groups (x ∷ gs))) s
  busy_round f x gs ns old s ne live busy rest =
      rw busy (round_busy f x gs s ne live busy ∙ rest.0, rest.1)

  no_more : (f : ℕ) (s : Jobs) → reserve_all malloc_cn (suc f) 0 jn s ≡ ok s
  unfolding reserve_all
  no_more f s = refl

  -- The loop makes a node for each client of the group that is not busy.
  pub reserve_all-reserved_all :
      (fuel cg : ℕ) (gs ns old : List ℕ) (s : Jobs)
      → IsJob s jn old
      → Chain s.clients.groups.n cg gs
      → MembersLive s.clients gs
      → Gives malloc_cn s.cn_live ns
      → length ns ≡ length (idle s.clients.busy (clients_of s.clients.groups gs))
      → length old + length ns < 2147483648
      → length gs < fuel
      → Fills fuel cg ns old (idle s.clients.busy (clients_of s.clients.groups gs)) s
  reserve_all-reserved_all zero cg gs ns old s is c live gives same few enough =
      absurd (omega arith)
  reserve_all-reserved_all (suc f) cg [] [] old s is c live gives same few enough =
      (rw c (no_more f s), rw (append-nil old) is)
  reserve_all-reserved_all (suc f) cg [] (n ∷ ns) old s is c live gives same few enough =
      absurd (omega arith)
  reserve_all-reserved_all (suc f) cg (x ∷ gs) [] old s is c live gives same few enough =
      elim (Bool-cases (s.clients.busy (s.clients.groups.ci x))) [
        | inl busy ↦ rw c.0 (
            busy_round f x gs [] old s c.1 live busy (
              reserve_all-reserved_all f (s.clients.groups.n x) gs [] old s is c.2 live.3 gives
                (same ∙ rw busy refl) few (omega arith)))
        | inr free ↦ absurd (ground arith)
      ]
  reserve_all-reserved_all (suc f) cg (x ∷ gs) (n ∷ ns) old s is c live gives same few enough =
      elim (Bool-cases (s.clients.busy (s.clients.groups.ci x))) [
        | inl busy ↦ rw c.0 (
            busy_round f x gs (n ∷ ns) old s c.1 live busy (
              reserve_all-reserved_all f (s.clients.groups.n x) gs (n ∷ ns) old s is c.2 live.3
                gives (same ∙ rw busy refl) few (omega arith)))
        | inr free ↦
            let client : ℕ = s.clients.groups.ci x in
            let others : List ℕ =
              idle (update s.clients.busy client true) (clients_of s.clients.groups gs) in
            let both : length (n ∷ ns) ≡ length (client ∷ others) = same ∙ rw free refl in
            let one =
              reserve-reserved n client s old is gives.0 gives.1 gives.2 (omega arith) live.1
                live.2 in
            let s1 : Jobs = reserved jn n client s in
            let rest =
              reserve_all-reserved_all f (s.clients.groups.n x) gs ns (old ++ n ∷ []) s1 one.1 c.2
                (MembersLive-reserved n client gs s live.3) gives.3 (ground arith)
                (omega (arith, length-append old (n ∷ []))) (omega arith) in
            rw (free, c.0)
              (
                round_idle f x n gs s s1 c.1 live free one.0 ∙ rest.0,
                rw (← append_assoc old (n ∷ []) ns) rest.1,
              )
      ]
