-- ===== src/Jobs/Locks.antt =====
-- The mutexes of the job list in server/src/jobs.c: `addJob` locks the mutex of the old tail and
-- unlocks that of the new one.
use pyramid.Prelude.{
  ℕ, ◌≡◌, ◌≢◌, refl, sym, ap, ◌∙◌, Bool, true, false, some, arith, update, subst, ℤ, ◌%◌,
}
use pyramid.Wire.{Run, ok, out_of_fuel, Bytes}
use pyramid.Wire.Laws.{bind-eq-ok}
use pyramid.Links.{is_null, deref}
use pyramid.Registry.{Clients, server_get_client_info_head, get_hash, server_search_client_fd}
use pyramid.Jobs.{Jobs, lock, unlock}
use pyramid.Jobs.Reserve.{add_job}
use pyramid.Jobs.Flow.{record_result, take_result, update_job_result, result_from}

lock-effect :
    (jn : ℕ) (s s' : Jobs)
    → lock jn s ≡ ok s'
    → (s' ≡ record s { locked = update s.locked jn true }) × (s.jn_live jn ≡ true) × (jn ≢ 0)
unfolding lock deref
lock-effect jn s s' e = ground arith

unlock-effect :
    (jn : ℕ) (s s' : Jobs)
    → unlock jn s ≡ ok s'
    → s' ≡ record s { locked = update s.locked jn false }
unfolding unlock deref
unlock-effect jn s s' e = ground arith

lock_held :
    (jn : ℕ) (s : Jobs)
    → s.locked jn ≡ true
    → s.jn_live jn ≡ true
    → jn ≢ 0
    → lock jn s ≡ out_of_fuel
unfolding lock deref
lock_held jn s held live ne = ground arith

same : (f : ℕ → Bool) (a : ℕ) (v : Bool) → update f a v a ≡ v
same f a v = ground arith

other : (f : ℕ → Bool) (a b : ℕ) (v : Bool) → a ≢ b → update f a v b ≡ f b
other f a b v ne = ground arith

other_twice : (f : ℕ → Bool) (a b : ℕ) (v w : Bool) → a ≢ b → update (update f a v) a w b ≡ f b
other_twice f a b v w ne = ground arith

ok_pair :
    {a b : ℕ} {s t : Jobs} → ◌≡◌ {A = Run (ℕ × Jobs)} (ok (a, s)) (ok (b, t)) → (a ≡ b) × (s ≡ t)
ok_pair e = (cc, cc)

add_job-locked :
    (malloc_cn malloc_jn : (ℕ → Bool) → ℕ) (job_id : ℤ) (type new : ℕ) (s s' : Jobs)
    → add_job malloc_cn malloc_jn job_id type s ≡ ok (new, s')
    → new ≢ s.p_tail
    → (s'.clients ≡ s.clients)
      × (s'.locked s.p_tail ≡ true)
      × (s'.jn_live s.p_tail ≡ true)
      × (s.p_tail ≢ 0)
unfolding add_job
add_job-locked malloc_cn malloc_jn job_id type new s s' e apart =
    let (s0, locks, e1) = bind-eq-ok (lock s.p_tail s) _ e in
    let (_, _, e2) = bind-eq-ok (deref _ _) _ e1 in
    let (_, _, e3) = bind-eq-ok (deref _ _) _ e2 in
    let (s2, unlocks, e4) = bind-eq-ok (unlock _ _) _ e3 in
    let (before, live, ne) = lock-effect s.p_tail s s0 locks in
    let after = unlock-effect _ _ s2 unlocks in
    let (same_new, same_s) = ok_pair e4 in
    (
      sym (ap (λ (t : Jobs). t.clients) same_s)
          ∙ (ap (λ (t : Jobs). t.clients) after ∙ ap (λ (t : Jobs). t.clients) before),
      sym (ap (λ (t : Jobs). t.locked s.p_tail) same_s)
          ∙ (ap (λ (t : Jobs). t.locked s.p_tail) after
              ∙ (other_twice s0.locked _ s.p_tail false false (λ e. apart (sym same_new ∙ e))
                  ∙ (ap (λ (t : Jobs). t.locked s.p_tail) before ∙ same s.locked s.p_tail true))),
      sym (ap (λ (t : Jobs). t.jn_live s.p_tail) same_s)
          ∙ (ap (λ (t : Jobs). t.jn_live s.p_tail) after
              ∙ (other s0.jn_live _ s.p_tail true (λ e. apart (sym same_new ∙ e))
                  ∙ (ap (λ (t : Jobs). t.jn_live s.p_tail) before ∙ live))),
      ne,
    )

module _ (ip jd : Bytes) where
  take_result-waits :
      (fuel client jn : ℕ) (result : ℤ) (s : Jobs)
      → s.locked jn ≡ true
      → s.jn_live jn ≡ true
      → jn ≢ 0
      → take_result ip jd fuel client jn result s ≡ out_of_fuel
  unfolding take_result record_result
  take_result-waits fuel client jn result s held live ne = rw (lock_held jn s held live ne) refl

  -- Once `addJob` has put a new job behind the last one, a result that a client of that job sends is
  -- never taken: `updateJobResult` waits for a mutex that `addJob` left locked.
  pub update_job_result-add_job :
      (malloc_cn malloc_jn : (ℕ → Bool) → ℕ) (fuel cfd client type new : ℕ) (job_id result : ℤ)
      (s s' : Jobs)
      → add_job malloc_cn malloc_jn job_id type s ≡ ok (new, s')
      → new ≢ s.p_tail
      → server_search_client_fd fuel (cfd % 255) cfd s.clients ≡ ok client
      → client ≢ 0
      → s.clients.jn client ≡ s.p_tail
      → update_job_result ip jd fuel cfd result s' ≡ out_of_fuel
  unfolding update_job_result result_from
  update_job_result-add_job malloc_cn malloc_jn fuel cfd client type new job_id result s s' e apart
        found ne works =
      let (same_clients, held, live, tail) =
        add_job-locked malloc_cn malloc_jn job_id type new s s' e apart in
      let bucket : server_get_client_info_head cfd ≡ some (cfd % 255) =
        unfold server_get_client_info_head get_hash in refl in
      let c_set : is_null client ≡ false = ground arith in
      let j_set : is_null s.p_tail ≡ false = ground arith in
      let found2 : server_search_client_fd fuel (cfd % 255) cfd s'.clients ≡ ok client =
        subst (λ c. server_search_client_fd fuel (cfd % 255) cfd c ≡ ok client) (sym same_clients)
          found in
      let works2 : s'.clients.jn client ≡ s.p_tail =
        ap (λ (c : Clients). c.jn client) same_clients ∙ works in
      rw (bucket, found2, works2, c_set, j_set)
        (take_result-waits fuel client s.p_tail result s' held live tail)
