-- ===== src/Jobs/Kept/Flow.antt =====
-- `initJob` and `updateJobResult` of server/src/jobs.c leave the lists of the registry alone.
use pyramid.Prelude.{
  ℕ, ◌≡◌, ◌∙◌, sym, ap, ◌&&◌, leb_ℤ, Bool-cases, inl, inr, if◌then◌else◌, true, false, Bool, arith,
  ℤ, pos,
}
use pyramid.Wire.{fetch, Run, ok, Bytes, ◌>>=◌}
use pyramid.Wire.Laws.{bind-eq-ok}
use pyramid.Sending.{strlen}
use pyramid.Links.{is_null}
use pyramid.Registry.{server_get_client_info_head}
use pyramid.Jobs.{Jobs, dequeue_pending_job, free_client}
use pyramid.Jobs.Assign.{assign_pending_job, assign_job}
use pyramid.Jobs.Reserve.{reserve_all, add_job}
use pyramid.Jobs.Reassign.{group_head}
use pyramid.Jobs.Flow.{
  record_result, take_result, result_from, update_job_result, start_job, init_job,
}
use pyramid.Jobs.Kept.{
  forget, Kept, same_state, dequeue_pending_job-Kept, lock-Kept, unlock-Kept, free_client-Kept,
  assign_pending_job-Kept, assign_job-Kept, reserve_all-Kept, add_job-Kept,
}

module _ (ip jd : Bytes) where
  record_result-Kept :
      (jn : ℕ) (result : ℤ) (s s' : Jobs) → record_result ip jd jn result s ≡ ok s' → Kept s s'
  unfolding record_result
  record_result-Kept jn result s s' e = grind (arith, lock-Kept, unlock-Kept)

  -- What follows once the queue was asked for a part of this job.
  taken :
      (fuel client jn cn : ℕ) (s s' : Jobs) (r : Bool)
      → (if is_null cn
          then free_client fuel (s.id jn) client s
          else (do (assigned, s3) ← assign_pending_job ip jd fuel jn cn client s; ok (true, s3)))
        ≡ ok (r, s')
      → Kept s s'
  taken fuel client jn cn s s' r = elim (Bool-cases (is_null cn)) [
    | inl none_left ↦ rw none_left (free_client-Kept fuel (s.id jn) client s s' r)
    | inr pending ↦ rw pending λ e.
        let (assigned, run, e1) = bind-eq-ok (assign_pending_job ip jd fuel jn cn client s) _ e in
        ap (λ (t : Jobs). forget t.clients) (sym (same_state e1))
        ∙ assign_pending_job-Kept ip jd fuel jn cn client s assigned.1 assigned.0 run
  ]

  take_result-Kept :
      (fuel client jn : ℕ) (result : ℤ) (s s' : Jobs) (r : Bool)
      → take_result ip jd fuel client jn result s ≡ ok (r, s')
      → Kept s s'
  unfolding take_result
  take_result-Kept fuel client jn result s s' r e =
      let (s1, recorded, e1) = bind-eq-ok (record_result ip jd jn result s) _ e in
      let (cn, dequeued, e2) = bind-eq-ok (dequeue_pending_job fuel jn s1) _ e1 in
      taken fuel client jn cn.0 cn.1 s' r e2
      ∙ (dequeue_pending_job-Kept fuel jn s1 cn.1 cn.0 dequeued
          ∙ record_result-Kept jn result s s1 recorded)

  pub update_job_result-Kept :
      (fuel cfd : ℕ) (result : ℤ) (s s' : Jobs) (r : Bool)
      → update_job_result ip jd fuel cfd result s ≡ ok (r, s')
      → Kept s s'
  unfolding update_job_result result_from server_get_client_info_head
  update_job_result-Kept fuel cfd result s s' r e = grind (arith, take_result-Kept)

  module _ (malloc_cn malloc_jn : (ℕ → Bool) → ℕ) (divide : Bytes → ℤ → ℤ → Run Bool) where
    -- What follows once the clients of the group are reserved; `n` is their number.
    started :
        (fuel jn job_id : ℕ) (path : Bytes) (s s' : Jobs) (r : Bool) (n : ℤ)
        → (if leb_ℤ n (pos 0) && leb_ℤ (pos 0) n then ok (false, s) else (do
          k ← strlen path
          name ← fetch k path
          success ← divide name (pos job_id) n
          if success then assign_job ip jd fuel jn s else ok (false, s)))
          ≡ ok (r, s')
        → Kept s s'
    started fuel jn job_id path s s' r n e = grind (arith, assign_job-Kept)

    start_job-Kept :
        (fuel gid job_id task_type : ℕ) (path : Bytes) (s s' : Jobs) (r : Bool)
        → start_job ip jd malloc_cn malloc_jn divide fuel gid job_id task_type path s ≡ ok (r, s')
        → Kept s s'
    unfolding start_job
    start_job-Kept fuel gid job_id task_type path s s' r e =
        let (jn, added, e1) =
          bind-eq-ok (add_job malloc_cn malloc_jn (pos job_id) task_type s) _ e in
        let (h, _, e2) = bind-eq-ok (group_head _ _) _ e1 in
        let (s2, reserved, e3) = bind-eq-ok (reserve_all _ _ _ _ _) _ e2 in
        started fuel jn.0 job_id path s2 s' r (s2.num_clients jn.0) e3
        ∙ (reserve_all-Kept malloc_cn fuel h jn.0 jn.1 s2 reserved
            ∙ add_job-Kept malloc_cn malloc_jn (pos job_id) task_type jn.0 s jn.1 added)

    pub init_job-Kept :
        (fuel : ℕ) (group job_id : ℤ) (task_type : ℕ) (file : Bytes) (s s' : Jobs) (r : Bool)
        → init_job ip jd malloc_cn malloc_jn divide fuel group job_id task_type file s ≡ ok (r, s')
        → Kept s s'
    unfolding init_job
    init_job-Kept fuel group job_id task_type file s s' r e = grind (arith, start_job-Kept)
