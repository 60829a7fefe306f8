-- ===== src/Jobs/Reserve.antt =====
-- server/src/jobs.c: `addClientToJob` and `addJob`, and the loop of `initJob` over a group.
use pyramid.Prelude.{ℕ, zero, suc, Bool, true, false, if◌then◌else◌, update, ℤ, pos, negsuc}
use pyramid.Wire.{Run, ok, out_of_fuel, ◌>>=◌}
use pyramid.Messages.{sub_int}
use pyramid.Links.{is_null, deref}
use pyramid.Registry.{server_update_job_node}
use pyramid.Jobs.{Jobs, lock, unlock, set_busy}

-- `malloc` for a ClientNode and for a JobNode.
module _ (malloc_cn : (ℕ → Bool) → ℕ) where
  unfoldable pub add_client_to_job : ℕ → ℕ → Jobs → Run (ℕ × Jobs)
  add_client_to_job jn client s = do
    let node = malloc_cn s.cn_live
    let live = update s.cn_live node true
    _ ← deref live node
    _ ← deref s.jn_live jn
    let tail = s.job_tail jn
    _ ← deref live tail
    n ← sub_int (s.num_clients jn) (negsuc 0)
    ok (
      node,
      record s {
        cn_live = live;
        client = update s.client node client;
        jid = update s.jid node (s.id jn);
        cn_prev = update s.cn_prev node tail;
        cn_next = update (update s.cn_next node 0) tail node;
        job_tail = update s.job_tail jn node;
        num_clients = update s.num_clients jn n;
      },
    )

  -- `addClientToJob`, `server_update_job_node` and `busy = TRUE`, in the order of `initJob`.
  unfoldable pub reserve : ℕ → ℕ → Jobs → Run (ℕ × Jobs)
  unfolding add_client_to_job
  reserve jn client s = do
    (cn, s1) ← add_client_to_job jn client s
    s2 ← set_busy client true (record s1 { clients = server_update_job_node client jn s1.clients })
    ok (cn, s2)

  -- `while (cg)` of `initJob`
  unfoldable pub reserve_all : ℕ → ℕ → ℕ → Jobs → Run Jobs
  unfolding reserve
  reserve_all zero cg jn s = out_of_fuel
  reserve_all (suc fuel) cg jn s =
      let g = s.clients.groups in
      let round = (do
        _ ← deref g.cg_live cg
        _ ← deref s.clients.ci_live (g.ci cg)
        s1 ← if s.clients.busy (g.ci cg) then ok s else (do (cn, r) ← reserve jn (g.ci cg) s; ok r)
        reserve_all fuel (g.n cg) jn s1) in
      if is_null cg then ok s else round

  module _ (malloc_jn : (ℕ → Bool) → ℕ) where
    -- The mutex of the tail is locked, and that of the new tail is unlocked.
    unfoldable pub add_job : ℤ → ℕ → Jobs → Run (ℕ × Jobs)
    add_job job_id task_type s = do
      s0 ← lock s.p_tail s
      let new = malloc_jn s0.jn_live
      let jobs = update s0.jn_live new true
      _ ← deref jobs new
      let head = malloc_cn s0.cn_live
      let nodes = update s0.cn_live head true
      _ ← deref nodes head
      let s1 = record s0 {
        jn_live = jobs;
        cn_live = nodes;
        jn_next = update (update s0.jn_next new 0) s0.p_tail new;
        jn_prev = update s0.jn_prev new s0.p_tail;
        id = update s0.id new job_id;
        locked = update s0.locked new false;
        job_head = update s0.job_head new head;
        cn_prev = update s0.cn_prev head 0;
        client = update s0.client head 3735928559;
        cn_next = update s0.cn_next head (s0.job_tail new);
        job_tail = update s0.job_tail new head;
        task_type = update s0.task_type new task_type;
        num_clients = update s0.num_clients new (pos 0);
        p_tail = new;
      }
      s2 ← unlock s1.p_tail s1
      ok (new, s2)
