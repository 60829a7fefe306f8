-- ===== src/Jobs/Added.antt =====
-- `addJob` of server/src/jobs.c: a new job has no clients.
use pyramid.Prelude.{ℕ, ◌≡◌, ◌≢◌, refl, Bool, true, false, [], arith, update, ℤ, pos}
use pyramid.Wire.{ok}
use pyramid.Links.{deref, is_null}
use pyramid.Jobs.{Jobs, lock, unlock}
use pyramid.Jobs.Reserve.{add_job}
use pyramid.Jobs.Reserved.{IsJob}

-- The new job behind the last one.
abbrev pub added : ℕ → ℕ → ℤ → ℕ → Jobs → Jobs
added jn head job_id task_type s = record s {
  jn_live = update s.jn_live jn true;
  cn_live = update s.cn_live head true;
  jn_next = update (update s.jn_next jn 0) s.p_tail jn;
  jn_prev = update s.jn_prev jn s.p_tail;
  id = update s.id jn job_id;
  locked = update (update (update s.locked s.p_tail true) jn false) jn false;
  job_head = update s.job_head jn head;
  cn_prev = update s.cn_prev head 0;
  client = update s.client head 3735928559;
  cn_next = update s.cn_next head (s.job_tail jn);
  job_tail = update s.job_tail jn head;
  task_type = update s.task_type jn task_type;
  num_clients = update s.num_clients jn (pos 0);
  p_tail = jn;
}

module _ (malloc_cn malloc_jn : (ℕ → Bool) → ℕ) (jn head : ℕ) (job_id : ℤ) (task_type : ℕ)
    (s : Jobs) (tail_set : s.p_tail ≢ 0) (tail_live : s.jn_live s.p_tail ≡ true)
    (unlocked : s.locked s.p_tail ≡ false) (job : malloc_jn s.jn_live ≡ jn) (job_set : jn ≢ 0)
    (node : malloc_cn s.cn_live ≡ head) (node_set : head ≢ 0) where
  pub add_job-added :
      add_job malloc_cn malloc_jn job_id task_type s ≡ ok (jn, added jn head job_id task_type s)
  unfolding add_job lock unlock deref
  add_job-added =
      let a : is_null s.p_tail ≡ false = ground arith in
      let b : is_null jn ≡ false = ground arith in
      let c : is_null head ≡ false = ground arith in
      let d : update s.jn_live jn true jn ≡ true = ground arith in
      let e : update s.cn_live head true head ≡ true = ground arith in
      rw (a, tail_live, unlocked, job, node, b, c, d, e) refl

  pub added-IsJob : IsJob (added jn head job_id task_type s) jn []
  added-IsJob =
      let here : update s.job_head jn head jn ≡ head = ground arith in
      record {
        set = job_set;
        live = ground arith;
        nodes = λ n h. ground arith;
        distinct = (refl, tt);
        leads = ground arith;
        ended = λ h. absurd (omega arith);
        counted = ground arith;
      }
