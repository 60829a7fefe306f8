-- ===== src/Jobs/Assigned.antt =====
-- `assignJob` of server/src/jobs.c on a whole job.
use pyramid.Prelude.{
  ℕ, zero, suc, ◌+◌, ◌<◌, ◌≡◌, ◌≢◌, refl, ◌∙◌, true, false, some, List, [], ◌∷◌, ◌++◌, length,
  arith, append-nil, append_assoc, ap, has, Distinct, get_elem?, update, ℤ,
}
use pyramid.Wire.{ok, Bytes}
use pyramid.Links.{deref, is_null}
use pyramid.Groups.Leaving.{Chain}
use pyramid.Jobs.{Jobs}
use pyramid.Jobs.Assign.{part_path, send_part, assign_from, assign_job}

-- The nodes are allocated, and so are their clients.
abbrev pub AllLive : Jobs → List ℕ → Type 0
AllLive s [] = Unit
AllLive s (n ∷ ns) =
    (s.cn_live n ≡ true) × (s.client n ≢ 0) × (s.clients.ci_live (s.client n) ≡ true) × AllLive s ns

-- The nodes numbered from `i` on.
abbrev pub numbered : ℕ → List ℕ → (ℕ → ℕ) → ℕ → ℕ
numbered i [] index = index
numbered i (n ∷ ns) index = numbered (i + 1) ns (update index n i)

numbered-other :
    (i a : ℕ) (ns : List ℕ) (index : ℕ → ℕ) → has a ns ≡ false → numbered i ns index a ≡ index a
numbered-other i a [] index h = refl
numbered-other i a (n ∷ ns) index h =
    numbered-other (i + 1) a ns (update index n i) (ground arith) ∙ ground arith

numbered-get_elem? :
    (i k n : ℕ) (ns : List ℕ) (index : ℕ → ℕ)
    → Distinct ns
    → get_elem? ns k ≡ some n
    → numbered i ns index n ≡ i + k
numbered-get_elem? i k n [] index d e = cc
numbered-get_elem? i zero n (m ∷ ns) index d e =
    let same : m ≡ n = cc in
    rw (← same) (numbered-other (i + 1) m ns (update index m i) d.0 ∙ ground arith)
numbered-get_elem? i (suc k) n (m ∷ ns) index d e =
    numbered-get_elem? (i + 1) k n ns (update index m i) d.1 e ∙ ground arith

module _ (ip jd : Bytes) where
  -- One call of `sh_send_encoded_data` for each node, with the parts from `i` on.
  abbrev pub part_messages : (ℕ → ℕ) → ℤ → ℕ → ℕ → List ℕ → List (ℕ × Bytes × ℕ)
  part_messages descriptor id type i [] = []
  part_messages descriptor id type i (n ∷ ns) =
      (descriptor n, part_path ip jd id i, type) ∷ part_messages descriptor id type (i + 1) ns

  -- The clients of the nodes are told their parts, from `i` on.
  abbrev pub told : ℕ → ℕ → List ℕ → Jobs → Jobs
  told jn i ns s = record s {
    index = numbered i ns s.index;
    sent =
        s.sent ++ part_messages (λ n. s.clients.cfd (s.client n)) (s.id jn) (s.task_type jn) i ns;
  }

  assign_from-told :
      (fuel current jn i : ℕ) (ns : List ℕ) (s : Jobs)
      → Chain s.cn_next current ns
      → AllLive s ns
      → length ns < fuel
      → assign_from ip jd fuel current jn i s ≡ ok (told jn i ns s)
  unfolding assign_from deref send_part
  assign_from-told zero current jn i ns s c live enough = absurd (omega arith)
  assign_from-told (suc f) current jn i [] s c live enough =
      let end : is_null current ≡ true = ground arith in rw (end, append-nil s.sent) refl
  assign_from-told (suc f) current jn i (n ∷ ns) s c live enough =
      let set : is_null current ≡ false = ground arith in
      let client_set : is_null (s.client n) ≡ false = ground arith in
      let here : current ≡ n = c.0 in
      let p : ℕ × Bytes × ℕ =
        (s.clients.cfd (s.client n), part_path ip jd (s.id jn) i, s.task_type jn) in
      let s1 : Jobs = record s { index = update s.index n i; sent = s.sent ++ p ∷ [] } in
      rw (set, here, live.0, client_set, live.2)
        (assign_from-told f (s.cn_next n) jn (i + 1) ns s1 c.2 live.3 (omega arith)
          ∙ ap ok (
              ap
                (λ (l : List (ℕ × Bytes × ℕ)). record s {
                  index = numbered (i + 1) ns (update s.index n i);
                  sent = l;
                })
                (append_assoc s.sent (p ∷ []) (
                  part_messages (λ m. s.clients.cfd (s.client m)) (s.id jn) (s.task_type jn) (i + 1)
                    ns))))

  -- Every client of a job is told one part of the job, the parts numbered from 0 in the order of the
  -- list, and its node keeps the number of its part; nothing else changes. The job, the head of its
  -- list and the nodes are allocated, the nodes are distinct, their clients are allocated, and there
  -- are more rounds than nodes.
  pub assign_job-parts :
      (fuel jn : ℕ) (ns : List ℕ) (s : Jobs)
      → jn ≢ 0
      → s.jn_live jn ≡ true
      → s.job_head jn ≢ 0
      → s.cn_live (s.job_head jn) ≡ true
      → Chain s.cn_next (s.cn_next (s.job_head jn)) ns
      → Distinct ns
      → AllLive s ns
      → length ns < fuel
      → (assign_job ip jd fuel jn s ≡ ok (true, told jn 0 ns s))
        × ((k n : ℕ) → get_elem? ns k ≡ some n → (told jn 0 ns s).index n ≡ k)
  unfolding assign_job deref
  assign_job-parts fuel jn ns s ne live ne_head live_head c d all enough =
      let set : is_null jn ≡ false = ground arith in
      let head_set : is_null (s.job_head jn) ≡ false = ground arith in
      (
        rw
            (
              set,
              live,
              head_set,
              live_head,
              assign_from-told fuel (s.cn_next (s.job_head jn)) jn 0 ns s c all enough,
            )
            refl,
        λ k n e. numbered-get_elem? 0 k n ns s.index d e ∙ ground arith,
      )
