-- ===== src/Jobs/Flow.antt =====
-- server/src/jobs.c: the functions that other files call: `initializeJobDll`, `initJob`,
-- `updateJobResult` and `removeJob`.
use pyramid.Prelude.{
  ℕ, suc, Bool, true, false, ◌&&◌, ◌||◌, Option, none, some, if◌then◌else◌, update, ℤ, pos, negsuc,
  ltb_ℤ, leb_ℤ,
}
use pyramid.Wire.{Run, ok, fault, ◌>>=◌, Bytes, fetch, store}
use pyramid.Sending.{strlen, zeros}
use pyramid.Links.{is_null, deref}
use pyramid.Groups.{server_get_client_gid_head}
use pyramid.Registry.{server_get_client_info_head, server_search_client_fd}
use pyramid.Jobs.{Jobs, dequeue_pending_job, lock, unlock, get_job_node, free_node, free_client}
use pyramid.Jobs.Assign.{assign_pending_job, assign_job}
use pyramid.Jobs.Reserve.{add_job, reserve_all}
use pyramid.Jobs.Reassign.{group_head}

-- `pHead = malloc(sizeof(JobNode))` and what is set in it.
unfoldable pub initialize_job_dll : ((ℕ → Bool) → ℕ) → Jobs → Run (Bool × Jobs)
initialize_job_dll malloc_jn s = do
  let head = malloc_jn s.jn_live
  let jobs = update s.jn_live head true
  _ ← deref jobs head
  ok (
    true,
    record s {
      p_head = head;
      jn_live = jobs;
      jn_prev = update s.jn_prev head 0;
      jn_next = update s.jn_next head s.p_tail;
      id = update s.id head (negsuc 0);
      job_head = update s.job_head head 0;
      job_tail = update s.job_tail head 0;
      num_clients = update s.num_clients head (pos 0);
      locked = update s.locked head false;
      p_tail = head;
    },
  )

-- The branches of `removeJob` for a job that was found: its list of clients is empty, or not.
unfoldable pub unlink_job : ℕ → Jobs → Run Jobs
unlink_job jn s = do
  _ ← deref s.jn_live (s.jn_prev jn)
  let last =
      ok (record s {
        jn_next = update s.jn_next (s.jn_prev jn) (s.jn_next jn);
        p_tail = s.jn_prev jn;
      })
  let inner = (do
    let s1 = record s { jn_next = update s.jn_next (s.jn_prev jn) (s.jn_next jn) }
    _ ← deref s1.jn_live (s1.jn_next jn)
    ok (record s1 { jn_prev = update s1.jn_prev (s1.jn_next jn) (s1.jn_prev jn) }))
  if is_null (s.jn_next jn) then last else inner

unfoldable pub remove_job : ℕ → ℤ → Jobs → Run (Bool × Jobs)
unfolding unlink_job
remove_job fuel job_id s = do
  jn ← get_job_node fuel job_id s
  let found = (do
    _ ← deref s.jn_live jn
    _ ← deref s.cn_live (s.job_head jn)
    _ ← deref s.cn_live (s.job_tail jn)
    let removed = (do
      s1 ← unlink_job jn s
      s2 ← free_node (s1.job_head jn) s1
      s3 ← free_node (s2.job_tail jn) s2
      ok (true, record s3 { jn_live = update s3.jn_live jn false }))
    if is_null (s.cn_next (s.job_head jn)) && is_null (s.cn_next (s.job_tail jn))
        then removed
        else ok (false, s))
  if is_null jn then ok (false, s) else found

module _ (ip jd : Bytes) where
  -- `result` is what `atoll` makes of the value.
  unfoldable pub record_result : ℕ → ℤ → Jobs → Run Jobs
  record_result jn result s = do
    s1 ← lock jn s
    let s2 =
        if ltb_ℤ (s1.result jn) result
        then record s1 { result = update s1.result jn result }
        else s1
    unlock jn s2

  unfoldable pub take_result : ℕ → ℕ → ℕ → ℤ → Jobs → Run (Bool × Jobs)
  unfolding record_result
  take_result fuel client jn result s = do
    s1 ← record_result jn result s
    (cn, s2) ← dequeue_pending_job fuel jn s1
    let busy_again = (do
      (assigned, s3) ← assign_pending_job ip jd fuel jn cn client s2
      ok (true, s3))
    let finished = free_client fuel (s2.id jn) client s2
    if is_null cn then finished else busy_again

  unfoldable pub result_from : ℕ → Option ℕ → ℕ → ℤ → Jobs → Run (Bool × Jobs)
  unfolding take_result
  result_from fuel none cfd result s = fault
  result_from fuel (some bucket) cfd result s = do
    client ← server_search_client_fd fuel bucket cfd s.clients
    let jn = s.clients.jn client
    let known = take_result fuel client jn result s
    if is_null client || is_null jn then ok (false, s) else known

  unfoldable pub update_job_result : ℕ → ℕ → ℤ → Jobs → Run (Bool × Jobs)
  unfolding result_from
  update_job_result fuel cfd result s =
      result_from fuel (server_get_client_info_head cfd) cfd result s

  -- `malloc` for the nodes, and `db_server_divide` of common/src/central_server.c, which runs a script
  -- on another host: given the path, the job and the number of parts, is its result 0?
  module _ (malloc_cn malloc_jn : (ℕ → Bool) → ℕ)
      (db_server_divide : Bytes → ℤ → ℤ → Run Bool) where
    -- `initJob` from the job's node on. A name of more than 256 characters does
    -- not fit `basePath`, and one of 256 leaves no room for its NUL.
    unfoldable pub start_job : ℕ → ℕ → ℕ → ℕ → Bytes → Jobs → Run (Bool × Jobs)
    start_job fuel gid job_id task_type base_path s = do
      (jn, s1) ← add_job malloc_cn malloc_jn (pos job_id) task_type s
      h ← group_head (server_get_client_gid_head gid) s1.clients.groups
      s2 ← reserve_all malloc_cn fuel h jn s1
      let divided = (do
        n ← strlen base_path
        path ← fetch n base_path
        success ← db_server_divide path (pos job_id) (s2.num_clients jn)
        let assigned = assign_job ip jd fuel jn s2
        if success then assigned else ok (false, s2))
      if leb_ℤ (s2.num_clients jn) (pos 0) && leb_ℤ (pos 0) (s2.num_clients jn)
          then ok (false, s2)
          else divided

    unfoldable pub init_job : ℕ → ℤ → ℤ → ℕ → Bytes → Jobs → Run (Bool × Jobs)
    unfolding start_job zeros
    init_job fuel (pos (suc g)) (pos job_id) task_type input_file s = do
      n ← strlen input_file
      copied ← fetch n input_file
      base_path ← store (zeros 256) 0 copied
      start_job fuel (suc g) job_id task_type base_path s
    init_job fuel group_id job_id task_type input_file s = ok (false, s)
