-- ===== src/Jobs/Init.antt =====
-- `initJob` of server/src/jobs.c: the clients of a group that are free are told the parts of a job.
use pyramid.Prelude.{
  sym, ap, ◌+◌, ◌-◌, ℕ, suc, ◌<◌, ◌≤◌, ◌≡◌, ◌≢◌, refl, ◌∙◌, Bool, true, false, List, [], ◌∷◌, ◌++◌,
  length, arith, update, ℤ, pos, some, leb_ℤ, ◌&&◌, get_elem?,
}
use pyramid.Wire.{store, Run, ok, Bytes}
use pyramid.Wire.Laws.{store-append, NulFree, fetch-append}
use pyramid.Sending.Laws.{strlen-append, zeros-add, length-zeros}
use pyramid.Sending.{zeros}
use pyramid.Groups.{server_get_client_gid_head}
use pyramid.Groups.Leaving.{Chain}
use pyramid.Jobs.{Jobs}
use pyramid.Jobs.Reassign.{group_head}
use pyramid.Jobs.Assigned.{part_messages}
use pyramid.Jobs.Group.{
  Gives, idle, clients_of, MembersLive, reserved_all, reserve_all-reserved_all,
}
use pyramid.Jobs.Added.{added, add_job-added, added-IsJob}
use pyramid.Jobs.Started.{assign_job-reserved_all, idle-AllSet, length-idle, length-clients_of}
use pyramid.Jobs.Flow.{start_job, init_job}

zeros-suc : (n : ℕ) → zeros (suc n) ≡ 0 ∷ zeros n
unfolding zeros
zeros-suc n = refl

-- The path in `basePath`, which was cleared.
store_path :
    (path : Bytes)
    → length path ≤ 255
    → store (zeros 256) 0 path ≡ ok (path ++ 0 ∷ zeros (255 - length path))
store_path path short =
    let room : 256 ≡ length path + suc (255 - length path) = omega arith in
    ap (λ (m : ℕ). store (zeros m) 0 path) room
    ∙ ap (λ (z : Bytes). store z 0 path) (zeros-add (length path) (suc (255 - length path)))
    ∙ store-append [] (zeros (length path)) path (zeros (suc (255 - length path)))
        (sym (length-zeros (length path)))
    ∙ ap (λ (z : Bytes). ok (path ++ z)) (zeros-suc (255 - length path))

module _ (malloc_cn malloc_jn : (ℕ → Bool) → ℕ) (ip jd : Bytes)
    (divide : Bytes → ℤ → ℤ → Run Bool) where
  start_job-parts :
      (fuel gid i job_id task_type jn head : ℕ) (path back : Bytes) (gs ns : List ℕ) (s : Jobs)
      → NulFree path
      → s.p_tail ≢ 0
      → s.jn_live s.p_tail ≡ true
      → s.locked s.p_tail ≡ false
      → malloc_jn s.jn_live ≡ jn
      → jn ≢ 0
      → Gives malloc_cn s.cn_live (head ∷ ns)
      → server_get_client_gid_head gid ≡ some i
      → Chain s.clients.groups.n (s.clients.groups.h i) gs
      → MembersLive s.clients gs
      → length ns ≡ length (idle s.clients.busy (clients_of s.clients.groups gs))
      → 0 < length ns
      → length ns < 2147483648
      → length gs < fuel
      → divide path (pos job_id) (pos (length ns)) ≡ ok true
      → (s' : Jobs) × (start_job ip jd malloc_cn malloc_jn divide fuel gid job_id task_type
            (path ++ 0 ∷ back)
            s
          ≡ ok (true, s'))
        × (s'.sent
            ≡ s.sent
              ++ part_messages ip jd s.clients.cfd
                  (pos job_id)
                  task_type
                  0
                  (idle s.clients.busy (clients_of s.clients.groups gs)))
        × ((k n : ℕ) → get_elem? ns k ≡ some n → s'.index n ≡ k)
  unfolding start_job group_head
  start_job-parts fuel gid i job_id task_type jn head path back gs ns s free tail_set tail_live
        unlocked job job_set nodes group members alive one_each some_one few enough divided =
      let cs : List ℕ = idle s.clients.busy (clients_of s.clients.groups gs) in
      let s1 : Jobs = added jn head (pos job_id) task_type s in
      let add =
        add_job-added malloc_cn malloc_jn jn head (pos job_id) task_type s tail_set tail_live
          unlocked job job_set nodes.0 nodes.1 in
      let is1 =
        added-IsJob malloc_cn malloc_jn jn head (pos job_id) task_type s tail_set tail_live unlocked
          job job_set nodes.0 nodes.1 in
      let (reserves, is2) =
        reserve_all-reserved_all malloc_cn jn fuel (s.clients.groups.h i) gs ns [] s1 is1 members
          alive nodes.3 one_each (omega arith) enough in
      let enough' : length ns < fuel = omega (
        arith,
        length-idle s.clients.busy (clients_of s.clients.groups gs),
        length-clients_of s.clients.groups gs,
      ) in
      let (s', runs, sent, numbers) =
        assign_job-reserved_all ip jd fuel jn ns cs s1 is2 some_one one_each
          (idle-AllSet s.clients s.clients.busy gs alive) enough' in
      let n : (reserved_all jn ns cs s1).num_clients jn ≡ pos (length ns) = is2.counted in
      let some_client : (leb_ℤ (pos (length ns)) (pos 0) && leb_ℤ (pos 0) (pos (length ns)))
          ≡ false =
        ground arith in
      let number : update s.id jn (pos job_id) jn ≡ pos job_id = ground arith in
      let type : update s.task_type jn task_type jn ≡ task_type = ground arith in
      (
        s',
        rw
            (
              add,
              group,
              reserves,
              n,
              some_client,
              strlen-append path back free,
              fetch-append path (0 ∷ back),
              divided,
            )
            runs,
        sent ∙ rw (number, type) refl,
        numbers,
      )

  -- A new job for a group: every client of the group that is not busy is told one part, the parts
  -- numbered from 0 in the order of the group, and nobody else is told anything; each new node keeps
  -- the number of its part. The group exists, its list ends, and its nodes and clients are allocated;
  -- the last job is allocated and its mutex free; `malloc` has room for the job, the head of its list
  -- and a node for each client that is free, of which there is one or more, and less than 2^31; the
  -- path has 255 characters at most, its division succeeds, and there are more rounds than nodes in
  -- the group.
  pub init_job-parts :
      (fuel g i job_id task_type jn head : ℕ) (path more : Bytes) (gs ns : List ℕ) (s : Jobs)
      → NulFree path
      → length path ≤ 255
      → s.p_tail ≢ 0
      → s.jn_live s.p_tail ≡ true
      → s.locked s.p_tail ≡ false
      → malloc_jn s.jn_live ≡ jn
      → jn ≢ 0
      → Gives malloc_cn s.cn_live (head ∷ ns)
      → server_get_client_gid_head (suc g) ≡ some i
      → Chain s.clients.groups.n (s.clients.groups.h i) gs
      → MembersLive s.clients gs
      → length ns ≡ length (idle s.clients.busy (clients_of s.clients.groups gs))
      → 0 < length ns
      → length ns < 2147483648
      → length gs < fuel
      → divide path (pos job_id) (pos (length ns)) ≡ ok true
      → (s' : Jobs) × (init_job ip jd malloc_cn malloc_jn divide fuel
            (pos (suc g))
            (pos job_id)
            task_type
            (path ++ 0 ∷ more)
            s
          ≡ ok (true, s'))
        × (s'.sent
            ≡ s.sent
              ++ part_messages ip jd s.clients.cfd
                  (pos job_id)
                  task_type
                  0
                  (idle s.clients.busy (clients_of s.clients.groups gs)))
        × ((k n : ℕ) → get_elem? ns k ≡ some n → s'.index n ≡ k)
  unfolding init_job
  init_job-parts fuel g i job_id task_type jn head path more gs ns s free short tail_set tail_live
        unlocked job job_set nodes group members alive one_each some_one few enough divided =
      let (s', runs, sent, numbers) =
        start_job-parts fuel (suc g) i job_id task_type jn head path (zeros (255 - length path)) gs
          ns s free tail_set tail_live unlocked job job_set nodes group members alive one_each
          some_one few enough divided in
      let named : store (zeros 256) 0 path ≡ ok (path ++ 0 ∷ zeros (255 - length path)) =
        store_path path short in
      (
        s',
        rw (strlen-append path more free, fetch-append path (0 ∷ more), named) runs,
        sent,
        numbers,
      )
