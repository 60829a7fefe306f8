-- ===== src/Jobs/Kept.antt =====
-- server/src/jobs.c leaves the lists of the registry alone: of the clients it sets `busy` and `jn`.
pub mod Flow
use pyramid.Prelude.{
  ℕ, zero, suc, ◌≡◌, ◌∙◌, sym, ap, ◌&&◌, leb_ℤ, Bool-cases, inl, inr, if◌then◌else◌, true, false,
  Bool, arith, ℤ, pos,
}
use pyramid.Wire.{Run, ok, Bytes, ◌>>=◌}
use pyramid.Wire.Laws.{bind-eq-ok}
use pyramid.Links.{deref, is_null}
use pyramid.Registry.{Clients, server_update_job_node, server_get_client_info_head}
use pyramid.Jobs.{
  Jobs, enqueue_pending_job, cut_pending, dequeue_pending_job, drop_client, set_busy, free_node,
  take_client_out, free_client, lock, unlock,
}
use pyramid.Jobs.Assign.{send_part, assign_pending_job, assign_from, assign_job}
use pyramid.Jobs.Reserve.{add_client_to_job, reserve, reserve_all, add_job}
use pyramid.Jobs.Reassign.{group_head, postpone, hand_over, reassign, reassign_from, reassign_job}
use pyramid.Jobs.Flow.{
  record_result, take_result, result_from, update_job_result, start_job, init_job,
}

pub same_state :
    {a b : Bool} {s t : Jobs} → ◌≡◌ {A = Run (Bool × Jobs)} (ok (a, s)) (ok (b, t)) → s ≡ t
same_state e = cc

-- The registry without the fields that the jobs set.
abbrev pub forget : Clients → Clients
forget c = record c { busy = λ a. false; jn = λ a. 0 }

abbrev pub Kept : Jobs → Jobs → Type 0
Kept s s' = forget s'.clients ≡ forget s.clients

pub enqueue_pending_job-Kept :
    (jn cn : ℕ) (s s' : Jobs) → enqueue_pending_job jn cn s ≡ ok s' → Kept s s'
unfolding enqueue_pending_job deref
enqueue_pending_job-Kept jn cn s s' e = ground arith

pub cut_pending-Kept : (cur : ℕ) (s s' : Jobs) → cut_pending cur s ≡ ok s' → Kept s s'
unfolding cut_pending deref
cut_pending-Kept cur s s' e = ground arith

pub dequeue_pending_job-Kept :
    (fuel jn : ℕ) (s s' : Jobs) (r : ℕ) → dequeue_pending_job fuel jn s ≡ ok (r, s') → Kept s s'
unfolding dequeue_pending_job
dequeue_pending_job-Kept fuel jn s s' r e = grind (arith, cut_pending-Kept)

pub lock-Kept : (jn : ℕ) (s s' : Jobs) → lock jn s ≡ ok s' → Kept s s'
unfolding lock deref
lock-Kept jn s s' e = ground arith

pub unlock-Kept : (jn : ℕ) (s s' : Jobs) → unlock jn s ≡ ok s' → Kept s s'
unfolding unlock deref
unlock-Kept jn s s' e = ground arith

pub drop_client-Kept : (jn : ℕ) (s s' : Jobs) → drop_client jn s ≡ ok s' → Kept s s'
unfolding drop_client
drop_client-Kept jn s s' e = ground arith

pub set_busy-Kept : (client : ℕ) (b : Bool) (s s' : Jobs) → set_busy client b s ≡ ok s' → Kept s s'
unfolding set_busy deref
set_busy-Kept client b s s' e = ground arith

pub free_node-Kept : (cn : ℕ) (s s' : Jobs) → free_node cn s ≡ ok s' → Kept s s'
unfolding free_node deref
free_node-Kept cn s s' e = ground arith

pub take_client_out-Kept :
    (jn current client : ℕ) (s s' : Jobs) → take_client_out jn current client s ≡ ok s' → Kept s s'
unfolding take_client_out deref
take_client_out-Kept jn current client s s' e = ground arith

pub free_client-Kept :
    (fuel : ℕ) (job_id : ℤ) (client : ℕ) (s s' : Jobs) (r : Bool)
    → free_client fuel job_id client s ≡ ok (r, s')
    → Kept s s'
unfolding free_client
free_client-Kept fuel job_id client s s' r e = grind (arith, take_client_out-Kept)

pub send_part-Kept :
    (ip jd : Bytes) (client jn index : ℕ) (s s' : Jobs)
    → send_part ip jd client jn index s ≡ ok s'
    → Kept s s'
unfolding send_part deref
send_part-Kept ip jd client jn index s s' e = ground arith

pub assign_pending_job-Kept :
    (ip jd : Bytes) (fuel jn cn client : ℕ) (s s' : Jobs) (r : Bool)
    → assign_pending_job ip jd fuel jn cn client s ≡ ok (r, s')
    → Kept s s'
unfolding assign_pending_job deref
assign_pending_job-Kept ip jd fuel jn cn client s s' r e =
    grind (arith, free_node-Kept, send_part-Kept)

pub add_client_to_job-Kept :
    (malloc_cn : (ℕ → Bool) → ℕ) (jn client : ℕ) (s s' : Jobs) (r : ℕ)
    → add_client_to_job malloc_cn jn client s ≡ ok (r, s')
    → Kept s s'
unfolding add_client_to_job deref
add_client_to_job-Kept malloc_cn jn client s s' r e = ground arith

pub assign_from-Kept :
    (ip jd : Bytes) (fuel current jn i : ℕ) (s s' : Jobs)
    → assign_from ip jd fuel current jn i s ≡ ok s'
    → Kept s s'
unfolding assign_from
assign_from-Kept ip jd zero current jn i s s' e = grind arith
assign_from-Kept ip jd (suc fuel) current jn i s s' e =
    grind (arith, send_part-Kept, assign_from-Kept ip jd fuel)

pub assign_job-Kept :
    (ip jd : Bytes) (fuel jn : ℕ) (s s' : Jobs) (r : Bool)
    → assign_job ip jd fuel jn s ≡ ok (r, s')
    → Kept s s'
unfolding assign_job
assign_job-Kept ip jd fuel jn s s' r e = grind (arith, assign_from-Kept)

module _ (malloc_cn : (ℕ → Bool) → ℕ) where
  pub reserve-Kept :
      (jn client : ℕ) (s s' : Jobs) (r : ℕ) → reserve malloc_cn jn client s ≡ ok (r, s') → Kept s s'
  unfolding reserve server_update_job_node
  reserve-Kept jn client s s' r e = grind (arith, add_client_to_job-Kept, set_busy-Kept)

  pub reserve_all-Kept :
      (fuel cg jn : ℕ) (s s' : Jobs) → reserve_all malloc_cn fuel cg jn s ≡ ok s' → Kept s s'
  unfolding reserve_all
  reserve_all-Kept zero cg jn s s' e = grind arith
  reserve_all-Kept (suc fuel) cg jn s s' e = grind (arith, reserve-Kept, reserve_all-Kept fuel)

  pub add_job-Kept :
      (malloc_jn : (ℕ → Bool) → ℕ) (job_id : ℤ) (task_type new : ℕ) (s s' : Jobs)
      → add_job malloc_cn malloc_jn job_id task_type s ≡ ok (new, s')
      → Kept s s'
  unfolding add_job
  add_job-Kept malloc_jn job_id task_type new s s' e = grind (arith, lock-Kept, unlock-Kept)

  pub postpone-Kept :
      (jn oldcn : ℕ) (s s' : Jobs) (r : Bool) → postpone jn oldcn s ≡ ok (r, s') → Kept s s'
  unfolding postpone
  postpone-Kept jn oldcn s s' r e = grind (arith, enqueue_pending_job-Kept, drop_client-Kept)

  module _ (ip jd : Bytes) where
    pub hand_over-Kept :
        (fuel jn oldcn client fresh : ℕ) (s s' : Jobs) (r : Bool)
        → hand_over ip jd malloc_cn fuel jn oldcn client fresh s ≡ ok (r, s')
        → Kept s s'
    unfolding hand_over
    hand_over-Kept fuel jn oldcn client fresh s s' r e =
        let (cn, reserved, e1) = bind-eq-ok (reserve malloc_cn jn fresh s) _ e in
        let (_, _, e2) = bind-eq-ok (deref _ _) _ e1 in
        let (s2, sent, e3) = bind-eq-ok (send_part _ _ _ _ _ _) _ e2 in
        let (freed, out, e4) = bind-eq-ok (free_client _ _ _ _) _ e3 in
        let last : freed.1 ≡ s' = same_state e4 in
        ap (λ (t : Jobs). forget t.clients) (sym last)
        ∙ (free_client-Kept fuel (s2.id jn) client s2 freed.1 freed.0 out
            ∙ (send_part-Kept ip jd fresh jn _ _ s2 sent
                ∙ reserve-Kept jn fresh s cn.1 cn.0 reserved))

    pub reassign-Kept :
        (fuel client jn : ℕ) (s s' : Jobs) (r : Bool)
        → reassign ip jd malloc_cn fuel client jn s ≡ ok (r, s')
        → Kept s s'
    unfolding reassign
    reassign-Kept fuel client jn s s' r e = grind (arith, postpone-Kept, hand_over-Kept)

    pub reassign_job-Kept :
        (fuel cfd : ℕ) (s s' : Jobs) (r : Bool)
        → reassign_job ip jd malloc_cn fuel cfd s ≡ ok (r, s')
        → Kept s s'
    unfolding reassign_job reassign_from server_get_client_info_head
    reassign_job-Kept fuel cfd s s' r e = grind (arith, reassign-Kept)
