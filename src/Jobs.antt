-- ===== src/Jobs.antt =====
-- server/src/jobs.h and server/src/jobs.c: the list of jobs, the clients that work on each, and the
-- queue of the parts whose client is gone. Each field of the structures is a map from addresses,
-- NULL is 0. A fresh node keeps what its cells held before, so a field that is read before it is
-- set is arbitrary. Of a task the type is kept, which is all that is read after `initJob`.
pub mod Assign
pub mod Reserve
pub mod Reassign
pub mod Flow
pub mod Locks
pub mod Pending
pub mod Parts
pub mod Assigned
pub mod Reserved
pub mod Group
pub mod Started
pub mod Init
pub mod Added
pub mod Removal
pub mod Kept
use pyramid.Prelude.{
  ℕ, zero, suc, ◌+◌, ◌-◌, ◌/◌, ◌%◌, Bool, true, false, not, ◌&&◌, ◌||◌, Option, none, some, List,
  [], ◌∷◌, ◌++◌, length, ltb, leb, ◌==◌, if◌then◌else◌, update, ℤ, pos, negsuc, ltb_ℤ, take,
}
use pyramid.Wire.{Run, ok, fault, out_of_fuel, ◌>>=◌, Bytes}
use pyramid.Messages.{sub_int}
use pyramid.Links.{Links, is_null, deref}
use pyramid.Groups.{server_get_client_gid_head}
use pyramid.Registry.{
  Clients, server_get_client_info_head, server_search_client_fd, server_update_job_node,
}

pub record Jobs : Type 0 where
  pub clients : Clients
  -- ClientNode
  pub cn_live : ℕ → Bool
  pub client : ℕ → ℕ
  pub cn_prev : ℕ → ℕ
  pub cn_next : ℕ → ℕ
  pub index : ℕ → ℕ
  pub jid : ℕ → ℤ
  -- JobNode and its Job
  pub jn_live : ℕ → Bool
  pub locked : ℕ → Bool
  pub id : ℕ → ℤ
  pub result : ℕ → ℤ
  pub task_type : ℕ → ℕ
  pub job_head : ℕ → ℕ
  pub job_tail : ℕ → ℕ
  pub num_clients : ℕ → ℤ
  pub jn_prev : ℕ → ℕ
  pub jn_next : ℕ → ℕ
  -- pHead, pTail, reassignQ.head and reassignQ.tail
  pub p_head : ℕ
  pub p_tail : ℕ
  pub q_head : ℕ
  pub q_tail : ℕ
  -- the calls of sh_send_encoded_data: descriptor, string and type
  pub sent : List (ℕ × Bytes × ℕ)

pub enqueue_pending_job : ℕ → ℕ → Jobs → Run Jobs
enqueue_pending_job jn cn s =
    let linked = (do
      _ ← deref s.cn_live cn
      let s1 = record s { cn_next = update s.cn_next cn s.q_head; cn_prev = update s.cn_prev cn 0 }
      let behind = (do
        _ ← deref s.cn_live s.q_head
        ok (record s1 { cn_prev = update s1.cn_prev s.q_head cn }))
      s2 ← if is_null s.q_head then ok (record s1 { q_tail = cn }) else behind
      ok (record s2 { q_head = cn })) in
    if is_null jn || is_null cn then ok s else linked

-- `a == b` on `int`s.
abbrev pub same_id : ℤ → ℤ → Bool
same_id (pos a) (pos b) = a == b
same_id (negsuc a) (negsuc b) = a == b
same_id _ _ = false

-- `while (cur && (cur->jid != jn->job.id)) cur = cur->prev;`
pub find_pending : ℕ → ℕ → ℕ → Jobs → Run ℕ
find_pending zero cur jn s = out_of_fuel
find_pending (suc fuel) cur jn s =
    let rest = find_pending fuel (s.cn_prev cur) jn s in
    let round = (do
      _ ← deref s.cn_live cur
      _ ← deref s.jn_live jn
      if same_id (s.jid cur) (s.id jn) then ok cur else rest) in
    if is_null cur then ok 0 else round

-- The two assignments for the neighbours of `cur`.
pub cut_pending : ℕ → Jobs → Run Jobs
cut_pending cur s = do
  _ ← deref s.cn_live cur
  let before = (do
    _ ← deref s.cn_live (s.cn_prev cur)
    ok (record s { cn_next = update s.cn_next (s.cn_prev cur) (s.cn_next cur) }))
  s1 ← if is_null (s.cn_prev cur) then ok (record s { q_head = s.cn_next cur }) else before
  let behind = (do
    _ ← deref s1.cn_live (s1.cn_next cur)
    ok (record s1 { cn_prev = update s1.cn_prev (s1.cn_next cur) (s1.cn_prev cur) }))
  if is_null (s1.cn_next cur) then ok (record s1 { q_tail = s1.cn_prev cur }) else behind

pub dequeue_pending_job : ℕ → ℕ → Jobs → Run (ℕ × Jobs)
unfolding find_pending cut_pending
dequeue_pending_job fuel jn s = do
  cur ← find_pending fuel s.q_tail jn s
  s' ← if is_null cur then ok s else cut_pending cur s
  ok (cur, s')

-- `pthread_mutex_lock`: where the lock is held, and nobody releases it, the call never returns.
unfoldable pub lock : ℕ → Jobs → Run Jobs
lock jn s = do
  _ ← deref s.jn_live jn
  if s.locked jn then out_of_fuel else ok (record s { locked = update s.locked jn true })

unfoldable pub unlock : ℕ → Jobs → Run Jobs
unlock jn s = do _ ← deref s.jn_live jn; ok (record s { locked = update s.locked jn false })

-- The search of `getClientNode` and `freeClient` from `current` on.
pub find_client : ℕ → ℕ → ℕ → Jobs → Run ℕ
find_client zero current client s = out_of_fuel
find_client (suc fuel) current client s =
    let rest = find_client fuel (s.cn_next current) client s in
    let round = (do
      _ ← deref s.cn_live current
      if s.client current == client then ok current else rest) in
    if is_null current then ok 0 else round

pub get_client_node : ℕ → ℕ → ℕ → Jobs → Run ℕ
unfolding find_client
get_client_node fuel jn client s = do
  _ ← deref s.jn_live jn
  _ ← deref s.cn_live (s.job_head jn)
  find_client fuel (s.cn_next (s.job_head jn)) client s

-- `while (jobNode && jobNode->job.id != jobId) jobNode = jobNode->next;`
unfoldable pub find_job : ℕ → ℕ → ℤ → Jobs → Run ℕ
find_job zero jn job_id s = out_of_fuel
find_job (suc fuel) jn job_id s =
    let rest = find_job fuel (s.jn_next jn) job_id s in
    let round = (do _ ← deref s.jn_live jn; if same_id (s.id jn) job_id then ok jn else rest) in
    if is_null jn then ok 0 else round

unfoldable pub get_job_node : ℕ → ℤ → Jobs → Run ℕ
unfolding find_job
get_job_node fuel job_id s = do
  _ ← deref s.jn_live s.p_head
  find_job fuel (s.jn_next s.p_head) job_id s

-- `numClients--`
unfoldable pub drop_client : ℕ → Jobs → Run Jobs
drop_client jn s = do
  n ← sub_int (s.num_clients jn) (pos 1)
  ok (record s { num_clients = update s.num_clients jn n })

-- `client->busy = b`
unfoldable pub set_busy : ℕ → Bool → Jobs → Run Jobs
set_busy client b s = do
  let c = s.clients
  _ ← deref c.ci_live client
  ok (record s { clients = record c { busy = update c.busy client b } })

-- `free(cn)`
unfoldable pub free_node : ℕ → Jobs → Run Jobs
free_node cn s = do _ ← deref s.cn_live cn; ok (record s { cn_live = update s.cn_live cn false })

-- The two branches of `freeClient` for a node that was found; the second leaves the link of the
-- node before it as it is.
unfoldable pub take_client_out : ℕ → ℕ → ℕ → Jobs → Run Jobs
unfolding drop_client set_busy free_node
take_client_out jn current client s = do
  _ ← deref s.cn_live current
  let last = (do
    _ ← deref s.cn_live (s.cn_prev current)
    s1 ← set_busy client false (record s { cn_next = update s.cn_next (s.cn_prev current) 0 })
    s2 ← drop_client jn (record s1 { job_tail = update s1.job_tail jn (s1.cn_prev current) })
    free_node current s2)
  let inner = (do
    _ ← deref s.cn_live (s.cn_next current)
    s1 ←
        set_busy client false
          (record s { cn_prev = update s.cn_prev (s.cn_next current) (s.cn_prev current) })
    s2 ← drop_client jn s1
    free_node current s2)
  if is_null (s.cn_next current) then last else inner

pub free_client : ℕ → ℤ → ℕ → Jobs → Run (Bool × Jobs)
unfolding get_job_node get_client_node take_client_out
free_client fuel (negsuc n) client s = ok (false, s)
free_client fuel (pos job_id) client s = do
  jn ← get_job_node fuel (pos job_id) s
  let listed = (do
    current ← get_client_node fuel jn client s
    s' ← if is_null current then ok s else take_client_out jn current client s
    ok (true, s'))
  if is_null jn then ok (false, s) else listed
