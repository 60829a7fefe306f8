-- ===== src/Jobs/Pending.antt =====
-- The queue of pending parts of server/src/jobs.c.
use pyramid.Prelude.{ℕ, suc, ◌≡◌, ◌≢◌, refl, true, false, arith, update, ℤ, pos, negsuc}
use pyramid.Wire.{ok, ◌>>=◌}
use pyramid.Links.{is_null, deref}
use pyramid.Jobs.{
  Jobs, enqueue_pending_job, dequeue_pending_job, find_pending, cut_pending, same_id,
}

same_id_refl : (a : ℤ) → same_id a a ≡ true
same_id_refl (pos a) = ground arith
same_id_refl (negsuc a) = ground arith

enqueued : ℕ → Jobs → Jobs
enqueued cn s = record s {
  cn_next = update s.cn_next cn s.q_head;
  cn_prev = update s.cn_prev cn 0;
  q_head = cn;
  q_tail = cn;
}

enqueue_pending_job-enqueued :
    (jn cn : ℕ) (s : Jobs)
    → s.q_head ≡ 0
    → jn ≢ 0
    → cn ≢ 0
    → s.cn_live cn ≡ true
    → enqueue_pending_job jn cn s ≡ ok (enqueued cn s)
unfolding enqueue_pending_job deref enqueued
enqueue_pending_job-enqueued jn cn s empty ne_jn ne_cn live =
    let jn_set : is_null jn ≡ false = ground arith in
    let cn_set : is_null cn ≡ false = ground arith in
    let nobody : is_null s.q_head ≡ true = ground arith in rw (jn_set, cn_set, nobody, live) refl

find_first :
    (f cn jn : ℕ) (s : Jobs)
    → jn ≢ 0
    → cn ≢ 0
    → s.jn_live jn ≡ true
    → s.cn_live cn ≡ true
    → s.jid cn ≡ s.id jn
    → find_pending (suc f) cn jn s ≡ ok cn
unfolding find_pending deref
find_first f cn jn s ne_jn ne_cn live_jn live_cn same =
    let jn_set : is_null jn ≡ false = ground arith in
    let cn_set : is_null cn ≡ false = ground arith in
    let own : same_id (s.jid cn) (s.id jn) ≡ true = rw same (same_id_refl (s.id jn)) in
    rw (cn_set, jn_set, live_cn, live_jn, own) refl

cut_only :
    (cn : ℕ) (s : Jobs)
    → cn ≢ 0
    → s.cn_live cn ≡ true
    → s.cn_prev cn ≡ 0
    → s.cn_next cn ≡ 0
    → cut_pending cn s ≡ ok (record s { q_head = s.cn_next cn; q_tail = s.cn_prev cn })
unfolding cut_pending deref
cut_only cn s ne live first last =
    let cn_set : is_null cn ≡ false = ground arith in
    let no_prev : is_null (s.cn_prev cn) ≡ true = ground arith in
    let no_next : is_null (s.cn_next cn) ≡ true = ground arith in
    rw (cn_set, live, no_prev, no_next) refl

dequeue_found :
    (fuel jn cn : ℕ) (s s2 : Jobs)
    → cn ≢ 0
    → find_pending fuel s.q_tail jn s ≡ ok cn
    → cut_pending cn s ≡ ok s2
    → dequeue_pending_job fuel jn s ≡ ok (cn, s2)
unfolding dequeue_pending_job
dequeue_found fuel jn cn s s2 ne found cut =
    let cn_set : is_null cn ≡ false = ground arith in rw (found, cn_set, cut) refl

-- A part that is put into an empty queue is what the next client of its job gets, and the queue is
-- empty again.
pub dequeue_pending_job-enqueue_pending_job :
    (f jn cn : ℕ) (s : Jobs)
    → s.q_head ≡ 0
    → jn ≢ 0
    → cn ≢ 0
    → s.jn_live jn ≡ true
    → s.cn_live cn ≡ true
    → s.jid cn ≡ s.id jn
    → (s2 : Jobs) × ((enqueue_pending_job jn cn s >>= dequeue_pending_job (suc f) jn) ≡ ok (cn, s2))
      × (s2.q_head ≡ 0)
      × (s2.q_tail ≡ 0)
dequeue_pending_job-enqueue_pending_job f jn cn s empty ne_jn ne_cn live_jn live_cn same =
    let s1 : Jobs = enqueued cn s in
    let first : s1.cn_prev cn ≡ 0 = unfold enqueued in ground arith in
    let last : s1.cn_next cn ≡ 0 = unfold enqueued in ground arith in
    let tail : s1.q_tail ≡ cn = unfold enqueued in refl in
    let found : find_pending (suc f) cn jn s1 ≡ ok cn =
      find_first f cn jn s1 ne_jn ne_cn (unfold enqueued in live_jn) (unfold enqueued in live_cn)
        (unfold enqueued in same) in
    let cut = cut_only cn s1 ne_cn (unfold enqueued in live_cn) first last in
    let s2 : Jobs = record s1 { q_head = s1.cn_next cn; q_tail = s1.cn_prev cn } in
    (
      s2,
      rw (enqueue_pending_job-enqueued jn cn s empty ne_jn ne_cn live_cn)
          (dequeue_found (suc f) jn cn s1 s2 ne_cn (unfold enqueued in found) cut),
      last,
      first,
    )
