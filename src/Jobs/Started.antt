-- ===== src/Jobs/Started.antt =====
-- The nodes that the loop of `initJob` in server/src/jobs.c has made, and their clients.
use pyramid.Prelude.{
  ℕ, ◌+◌, ◌<◌, ◌≤◌, ◌≡◌, ◌≢◌, refl, ◌∙◌, Bool, true, false, List, [], ◌∷◌, ◌++◌, length, arith, has,
  Distinct, update, ℤ, inl, inr, Bool-cases, some, get_elem?,
}
use pyramid.Wire.{ok, Bytes}
use pyramid.Groups.{Groups}
use pyramid.Registry.{Clients}
use pyramid.Jobs.{Jobs}
use pyramid.Jobs.Assign.{assign_job}
use pyramid.Jobs.Assigned.{AllLive, part_messages, told, assign_job-parts}
use pyramid.Jobs.Reserved.{IsJob, Leads-Chain}
use pyramid.Jobs.Group.{idle, clients_of, MembersLive, reserved, reserved_all}

-- What one client leaves alone, all of them do.
pub reserved_all-same :
    {X : Type 0} (f : Jobs → X) (jn : ℕ) (ns cs : List ℕ) (s : Jobs)
    → ((n c : ℕ) (t : Jobs) → f (reserved jn n c t) ≡ f t)
    → f (reserved_all jn ns cs s) ≡ f s
reserved_all-same f jn [] cs s h = refl
reserved_all-same f jn (n ∷ ns) [] s h = refl
reserved_all-same f jn (n ∷ ns) (c ∷ cs) s h =
    reserved_all-same f jn ns cs (reserved jn n c s) h ∙ h n c s

reserved_all-client :
    (jn m : ℕ) (ns cs : List ℕ) (s : Jobs)
    → has m ns ≡ false
    → (reserved_all jn ns cs s).client m ≡ s.client m
reserved_all-client jn m [] cs s h = refl
reserved_all-client jn m (n ∷ ns) [] s h = refl
reserved_all-client jn m (n ∷ ns) (c ∷ cs) s h =
    reserved_all-client jn m ns cs (reserved jn n c s) (ground arith) ∙ ground arith

first_client :
    (jn n c : ℕ) (ns cs : List ℕ) (s : Jobs)
    → has n ns ≡ false
    → (reserved_all jn (n ∷ ns) (c ∷ cs) s).client n ≡ c
first_client jn n c ns cs s h = reserved_all-client jn n ns cs (reserved jn n c s) h ∙ ground arith

-- The parts go to the clients in their order.
pub part_messages-reserved_all :
    (ip jd : Bytes) (d : ℕ → ℕ) (id : ℤ) (type jn i : ℕ) (ns cs : List ℕ) (s : Jobs)
    → Distinct ns
    → length ns ≡ length cs
    → part_messages ip jd (λ n. d ((reserved_all jn ns cs s).client n)) id type i ns
      ≡ part_messages ip jd d id type i cs
part_messages-reserved_all ip jd d id type jn i [] [] s u same = refl
part_messages-reserved_all ip jd d id type jn i [] (c ∷ cs) s u same = absurd (omega arith)
part_messages-reserved_all ip jd d id type jn i (n ∷ ns) [] s u same = absurd (omega arith)
part_messages-reserved_all ip jd d id type jn i (n ∷ ns) (c ∷ cs) s u same =
    rw
      (
        first_client jn n c ns cs s u.0,
        part_messages-reserved_all ip jd d id type jn (i + 1) ns cs (reserved jn n c s) u.1
            (omega arith),
      )
      refl

abbrev pub AllSet : (ℕ → Bool) → List ℕ → Type 0
AllSet live [] = Unit
AllSet live (c ∷ cs) = (c ≢ 0) × (live c ≡ true) × AllSet live cs

pub idle-AllSet :
    (c : Clients) (busy : ℕ → Bool) (gs : List ℕ)
    → MembersLive c gs
    → AllSet c.ci_live (idle busy (clients_of c.groups gs))
idle-AllSet c busy [] live = tt
idle-AllSet c busy (x ∷ gs) live = elim (Bool-cases (busy (c.groups.ci x))) [
  | inl taken ↦ rw taken (idle-AllSet c busy gs live.3)
  | inr free ↦ rw free (live.1, live.2, idle-AllSet c (update busy (c.groups.ci x) true) gs live.3)
]

pub length-idle : (busy : ℕ → Bool) (cs : List ℕ) → length (idle busy cs) ≤ length cs
length-idle busy [] = omega arith
length-idle busy (c ∷ cs) = elim (Bool-cases (busy c)) [
  | inl taken ↦ rw taken (omega (arith, length-idle busy cs))
  | inr free ↦ rw free (omega (arith, length-idle (update busy c true) cs))
]

pub length-clients_of : (g : Groups) (gs : List ℕ) → length (clients_of g gs) ≡ length gs
length-clients_of g [] = refl
length-clients_of g (x ∷ gs) = omega (arith, length-clients_of g gs)

pub reserved_all-AllLive :
    (jn : ℕ) (ns cs : List ℕ) (s : Jobs)
    → Distinct ns
    → length ns ≡ length cs
    → AllSet s.clients.ci_live cs
    → ((n : ℕ) → has n ns ≡ true → (reserved_all jn ns cs s).cn_live n ≡ true)
    → AllLive (reserved_all jn ns cs s) ns
reserved_all-AllLive jn [] cs s u same set live = tt
reserved_all-AllLive jn (n ∷ ns) [] s u same set live = absurd (omega arith)
reserved_all-AllLive jn (n ∷ ns) (c ∷ cs) s u same set live =
    let here = first_client jn n c ns cs s u.0 in
    let kept : (reserved_all jn (n ∷ ns) (c ∷ cs) s).clients.ci_live ≡ s.clients.ci_live =
      reserved_all-same (λ (t : Jobs). t.clients.ci_live) jn (n ∷ ns) (c ∷ cs) s (λ m d t. refl) in
    (
      live n (ground arith),
      rw here set.0,
      rw (here, kept) set.1,
      reserved_all-AllLive jn ns cs (reserved jn n c s) u.1 (omega arith) set.2
          (λ m h. live m (ground arith)),
    )

-- The loop of `assignJob` on the clients for whom the loop of `initJob` has made nodes.
pub assign_job-reserved_all :
    (ip jd : Bytes) (fuel jn : ℕ) (ns cs : List ℕ) (s : Jobs)
    → IsJob (reserved_all jn ns cs s) jn ns
    → 0 < length ns
    → length ns ≡ length cs
    → AllSet s.clients.ci_live cs
    → length ns < fuel
    → (s' : Jobs) × (assign_job ip jd fuel jn (reserved_all jn ns cs s) ≡ ok (true, s'))
      × (s'.sent ≡ s.sent ++ part_messages ip jd s.clients.cfd (s.id jn) (s.task_type jn) 0 cs)
      × ((k n : ℕ) → get_elem? ns k ≡ some n → s'.index n ≡ k)
assign_job-reserved_all ip jd fuel jn ns cs s is some_one same set enough =
    let s2 : Jobs = reserved_all jn ns cs s in
    let head_in = is.nodes (s2.job_head jn) (ground arith) in
    let inside : (n : ℕ) → has n ns ≡ true → (n ≢ 0) × (s2.cn_live n ≡ true) =
      λ n h. is.nodes n (ground arith) in
    let no_null : has 0 ns ≡ false = elim (Bool-cases (has 0 ns)) [
      | inl h ↦ absurd ((inside 0 h).0 refl)
      | inr h ↦ h
    ] in
    let chain =
      Leads-Chain s2.cn_next (s2.job_head jn) (s2.job_tail jn) ns is.leads no_null
        (is.ended some_one) in
    let all = reserved_all-AllLive jn ns cs s is.distinct.1 same set (λ n h. (inside n h).1) in
    let (runs, numbers) =
      assign_job-parts ip jd fuel jn ns s2 is.set is.live head_in.0 head_in.1 chain is.distinct.1
        all enough in
    let kept_sent : s2.sent ≡ s.sent =
      reserved_all-same (λ (t : Jobs). t.sent) jn ns cs s (λ n c t. refl) in
    let kept_cfd : s2.clients.cfd ≡ s.clients.cfd =
      reserved_all-same (λ (t : Jobs). t.clients.cfd) jn ns cs s (λ n c t. refl) in
    let kept_id : s2.id ≡ s.id =
      reserved_all-same (λ (t : Jobs). t.id) jn ns cs s (λ n c t. refl) in
    let kept_type : s2.task_type ≡ s.task_type =
      reserved_all-same (λ (t : Jobs). t.task_type) jn ns cs s (λ n c t. refl) in
    (
      told ip jd jn 0 ns s2,
      runs,
      rw
          (
            kept_sent,
            kept_cfd,
            kept_id,
            kept_type,
            part_messages-reserved_all ip jd s.clients.cfd (s.id jn) (s.task_type jn) jn 0 ns cs s
                is.distinct.1 same,
          )
          refl,
      numbers,
    )
