-- ===== src/Jobs/Reassign.antt =====
-- server/src/jobs.c: `reassign_job`, which gives the part of a lost client to another one.
use pyramid.Prelude.{ℕ, zero, suc, Bool, true, ◌||◌, Option, none, some, if◌then◌else◌, update}
use pyramid.Wire.{Run, ok, fault, out_of_fuel, ◌>>=◌, Bytes}
use pyramid.Links.{is_null, deref}
use pyramid.Groups.{Groups, server_get_client_gid_head}
use pyramid.Registry.{server_get_client_info_head, server_search_client_fd}
use pyramid.Jobs.Assign.{send_part}
use pyramid.Jobs.Reserve.{reserve}
use pyramid.Jobs.{Jobs, enqueue_pending_job, get_client_node, drop_client, free_client}

-- `while (cg)` of `reassign_job`: the client that is free, or NULL.
pub find_free : ℕ → ℕ → Jobs → Run ℕ
find_free zero cg s = out_of_fuel
find_free (suc fuel) cg s =
    let g = s.clients.groups in
    let rest = find_free fuel (g.n cg) s in
    let round = (do
      _ ← deref g.cg_live cg
      _ ← deref s.clients.ci_live (g.ci cg)
      if s.clients.busy (g.ci cg) then rest else ok (g.ci cg)) in
    if is_null cg then ok 0 else round

unfoldable pub group_head : Option ℕ → Groups → Run ℕ
group_head none g = fault
group_head (some i) g = ok (g.h i)

-- No client is free: the node is taken out of the job and put into the queue.
unfoldable pub postpone : ℕ → ℕ → Jobs → Run (Bool × Jobs)
postpone jn oldcn s = do
  _ ← deref s.cn_live oldcn
  _ ← deref s.cn_live (s.cn_next oldcn)
  let s1 = record s { cn_prev = update s.cn_prev (s.cn_next oldcn) (s.cn_prev oldcn) }
  _ ← deref s1.cn_live (s1.cn_prev oldcn)
  let s2 = record s1 { cn_next = update s1.cn_next (s1.cn_prev oldcn) (s1.cn_next oldcn) }
  let s3 = record s2 {
    cn_next = update s2.cn_next oldcn 0;
    cn_prev = update s2.cn_prev oldcn 0;
    client = update s2.client oldcn 0;
  }
  s4 ← enqueue_pending_job jn oldcn s3
  s5 ← drop_client jn s4
  ok (true, s5)

module _ (ip jd : Bytes) (malloc_cn : (ℕ → Bool) → ℕ) where
  -- The client `fresh` is free and takes the part over.
  unfoldable pub hand_over : ℕ → ℕ → ℕ → ℕ → ℕ → Jobs → Run (Bool × Jobs)
  hand_over fuel jn oldcn client fresh s = do
    (cn, s1) ← reserve malloc_cn jn fresh s
    _ ← deref s1.cn_live oldcn
    let i = s1.index oldcn
    s2 ← send_part ip jd fresh jn i (record s1 { index = update s1.index cn i })
    (freed, s3) ← free_client fuel (s2.id jn) client s2
    ok (true, s3)

  -- The rest of `reassign_job` for a client with a job.
  unfoldable pub reassign : ℕ → ℕ → ℕ → Jobs → Run (Bool × Jobs)
  unfolding hand_over
  reassign fuel client jn s = do
    let g = s.clients.groups
    _ ← deref g.cg_live (s.clients.cg client)
    let gid = g.gid (s.clients.cg client)
    oldcn ← get_client_node fuel jn client s
    let moved = (do
      h ← group_head (server_get_client_gid_head gid) g
      fresh ← find_free fuel h s
      if is_null fresh then postpone jn oldcn s else hand_over fuel jn oldcn client fresh s)
    if is_null oldcn then ok (true, s) else moved

  unfoldable pub reassign_from : ℕ → Option ℕ → ℕ → Jobs → Run (Bool × Jobs)
  unfolding reassign
  reassign_from fuel none cfd s = fault
  reassign_from fuel (some bucket) cfd s = do
    client ← server_search_client_fd fuel bucket cfd s.clients
    let jn = s.clients.jn client
    let working = reassign fuel client jn s
    if is_null client || is_null jn then ok (true, s) else working

  unfoldable pub reassign_job : ℕ → ℕ → Jobs → Run (Bool × Jobs)
  unfolding reassign_from
  reassign_job fuel cfd s = reassign_from fuel (server_get_client_info_head cfd) cfd s
