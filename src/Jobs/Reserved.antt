-- ===== src/Jobs/Reserved.antt =====
-- `addClientToJob` of server/src/jobs.c and the loop of `initJob`: the list of the clients of a job.
use pyramid.Prelude.{
  ℕ, ◌+◌, ◌<◌, ◌≡◌, ◌≢◌, refl, ◌∙◌, Bool, true, false, List, [], ◌∷◌, ◌++◌, length, arith, has,
  Distinct, update, pos, negsuc, pos_part, ◌-ℤ◌, inl, inr, Bool-cases, ◌⊎◌, length-append,
}
use pyramid.Wire.{ok}
use pyramid.Messages.{sub_int}
use pyramid.Links.{deref, is_null}
use pyramid.Groups.Leaving.{Chain}
use pyramid.Registry.{Clients}
use pyramid.Jobs.{Jobs}
use pyramid.Jobs.Reserve.{add_client_to_job}

-- From the node `a` the `next` links lead through the nodes `ns`, and the last is `t`.
abbrev pub Leads : (ℕ → ℕ) → ℕ → List ℕ → ℕ → Type 0
Leads next a [] t = a ≡ t
Leads next a (n ∷ ns) t = (next a ≡ n) × Leads next n ns t

Leads-last : (next : ℕ → ℕ) (a t : ℕ) (ns : List ℕ) → Leads next a ns t → has t (a ∷ ns) ≡ true
Leads-last next a t [] l = ground arith
Leads-last next a t (n ∷ ns) l = ground (arith, Leads-last next n t ns l.1)

-- `node` put behind the last node.
abbrev pub behind : (ℕ → ℕ) → ℕ → ℕ → ℕ → ℕ
behind next t node = update (update next node 0) t node

Leads-behind :
    (next : ℕ → ℕ) (a t node : ℕ) (ns : List ℕ)
    → Leads next a ns t
    → Distinct (a ∷ ns)
    → has node (a ∷ ns) ≡ false
    → Leads (behind next t node) a (ns ++ node ∷ []) node
Leads-behind next a t node [] l d fresh = (ground arith, refl)
Leads-behind next a t node (n ∷ ns) l d fresh = (
  ground (arith, Leads-last next n t ns l.1),
  Leads-behind next n t node ns l.1 d.1 (ground arith),
)

pub Leads-Chain :
    (next : ℕ → ℕ) (a t : ℕ) (ns : List ℕ)
    → Leads next a ns t
    → has 0 ns ≡ false
    → next t ≡ 0
    → Chain next (next a) ns
Leads-Chain next a t [] l ne end = rw l end
Leads-Chain next a t (n ∷ ns) l ne end =
    (l.0, ground arith, Leads-Chain next n t ns l.1 (ground arith) end)

has-behind : (a x : ℕ) (ns : List ℕ) → has a (ns ++ x ∷ []) ≡ true → (a ≡ x) ⊎ (has a ns ≡ true)
has-behind a x [] h = inl (ground arith)
has-behind a x (n ∷ ns) h = elim (Bool-cases (has a (n ∷ ns))) [
  | inl old ↦ inr old
  | inr new ↦ elim (has-behind a x ns (ground arith)) [
    | inl e ↦ inl e
    | inr old ↦ inr (ground arith)
  ]
]

Distinct-behind : (x : ℕ) (ns : List ℕ) → Distinct ns → has x ns ≡ false → Distinct (ns ++ x ∷ [])
Distinct-behind x [] d h = (refl, tt)
Distinct-behind x (n ∷ ns) d h = (
  elim (Bool-cases (has n (ns ++ x ∷ []))) [
    | inl old ↦ absurd (ground (arith, has-behind n x ns old, d.0))
    | inr new ↦ new
  ],
  Distinct-behind x ns d.1 (ground arith),
)

-- The clients of the job `jn` are those of the nodes `ns`. The list of a job without clients does
-- not end.
pub record IsJob (s : Jobs) (jn : ℕ) (ns : List ℕ) : Type 0 where
  pub set : jn ≢ 0
  pub live : s.jn_live jn ≡ true
  pub nodes : (n : ℕ) → has n (s.job_head jn ∷ ns) ≡ true → (n ≢ 0) × (s.cn_live n ≡ true)
  pub distinct : Distinct (s.job_head jn ∷ ns)
  pub leads : Leads s.cn_next (s.job_head jn) ns (s.job_tail jn)
  pub ended : 0 < length ns → s.cn_next (s.job_tail jn) ≡ 0
  pub counted : s.num_clients jn ≡ pos (length ns)

sub_int-increment : (n : ℕ) → n + 1 < 2147483648 → sub_int (pos n) (negsuc 0) ≡ ok (pos (n + 1))
unfolding sub_int ◌-ℤ◌
sub_int-increment n h = ground arith

-- The job with one more client.
abbrev pub with_node : ℕ → ℕ → ℕ → Jobs → Jobs
with_node jn node client s = record s {
  cn_live = update s.cn_live node true;
  client = update s.client node client;
  jid = update s.jid node (s.id jn);
  cn_prev = update s.cn_prev node (s.job_tail jn);
  cn_next = behind s.cn_next (s.job_tail jn) node;
  job_tail = update s.job_tail jn node;
  num_clients = update s.num_clients jn (pos (pos_part (s.num_clients jn) + 1));
}

module _ (malloc_cn : (ℕ → Bool) → ℕ) (jn client : ℕ) (s : Jobs) (ns : List ℕ) (is : IsJob s jn ns)
    (ne : malloc_cn s.cn_live ≢ 0) (free : s.cn_live (malloc_cn s.cn_live) ≡ false)
    (few : length ns + 1 < 2147483648) where
  abbrev node : ℕ
  node = malloc_cn s.cn_live

  pub add_client_to_job-with_node :
      add_client_to_job malloc_cn jn client s ≡ ok (node, with_node jn node client s)
  unfolding add_client_to_job deref
  add_client_to_job-with_node =
      let node_set : is_null node ≡ false = ground arith in
      let jn_set : is_null jn ≡ false = ground (arith, is.set) in
      let tail_in =
        is.nodes (s.job_tail jn)
          (Leads-last s.cn_next (s.job_head jn) (s.job_tail jn) ns is.leads) in
      let tail_set : is_null (s.job_tail jn) ≡ false = ground arith in
      let tail_live : update s.cn_live node true (s.job_tail jn) ≡ true = ground arith in
      let node_live : update s.cn_live node true node ≡ true = ground arith in
      rw
        (
          node_set,
          jn_set,
          tail_set,
          tail_live,
          node_live,
          is.live,
          is.counted,
          sub_int-increment (length ns) few,
        )
        refl

  node_new : has node (s.job_head jn ∷ ns) ≡ false
  node_new = elim (Bool-cases (has node (s.job_head jn ∷ ns))) [
    | inl old ↦ absurd (ground (arith, is.nodes node old))
    | inr new ↦ new
  ]

  node_ends :
      update (update s.cn_next node 0) (s.job_tail jn) node (update s.job_tail jn node jn) ≡ 0
  node_ends =
      let tail_in = Leads-last s.cn_next (s.job_head jn) (s.job_tail jn) ns is.leads in
      let apart : node ≢ s.job_tail jn = ground (arith, node_new) in ground arith

  pub with_node-IsJob : IsJob (with_node jn node client s) jn (ns ++ node ∷ [])
  with_node-IsJob = record {
    set = is.set;
    live = is.live;
    nodes = λ n h. elim (has-behind n node (s.job_head jn ∷ ns) h) [
      | inl e ↦ rw e (ne, ground arith)
      | inr old ↦ ((is.nodes n old).0, ground (arith, (is.nodes n old).1))
    ];
    distinct = Distinct-behind node (s.job_head jn ∷ ns) is.distinct node_new;
    leads =
        let last : update s.job_tail jn node jn ≡ node = ground arith in
        rw last (
          Leads-behind s.cn_next (s.job_head jn) (s.job_tail jn) node ns is.leads is.distinct
            node_new);
    ended = λ h. node_ends;
    counted =
        let n : update s.num_clients jn (pos (pos_part (s.num_clients jn) + 1)) jn
            ≡ pos (pos_part (s.num_clients jn) + 1) =
          ground arith in
        n ∙ rw (is.counted, length-append ns (node ∷ [])) refl;
  }

-- The registry is no part of it.
pub IsJob-clients :
    (c : Clients) (s : Jobs) (jn : ℕ) (ns : List ℕ)
    → IsJob s jn ns
    → IsJob (record s { clients = c }) jn ns
IsJob-clients c s jn ns is = record {
  set = is.set;
  live = is.live;
  nodes = is.nodes;
  distinct = is.distinct;
  leads = is.leads;
  ended = is.ended;
  counted = is.counted;
}
