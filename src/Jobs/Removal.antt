-- ===== src/Jobs/Removal.antt =====
-- `freeClient` and `removeJob` of server/src/jobs.c: nodes that are freed and still used.
use pyramid.Prelude.{
  ℕ, suc, ◌≡◌, ◌≢◌, refl, sym, ap, ◌∙◌, Bool, true, false, arith, ◌==◌, if◌then◌else◌, update,
  subst, ℤ, pos,
}
use pyramid.Wire.{Run, ok, fault, ◌>>=◌}
use pyramid.Wire.Laws.{bind-eq-ok}
use pyramid.Links.{is_null, deref}
use pyramid.Jobs.{
  Jobs, take_client_out, find_client, set_busy, drop_client, free_node, get_job_node,
}
use pyramid.Messages.{sub_int}
use pyramid.Jobs.Flow.{remove_job, unlink_job}

ok_same : {s t : Jobs} → ok s ≡ ok t → s ≡ t
ok_same e = cc

deref_live : (live : ℕ → Bool) (a : ℕ) → deref live a ≡ ok tt → (live a ≡ true) × (a ≢ 0)
unfolding deref
deref_live live a e = ground arith

-- `t` has the links of `s`, and the same nodes.
abbrev SameNodes : Jobs → Jobs → Type 0
SameNodes s t = (t.cn_next ≡ s.cn_next) × (t.client ≡ s.client) × (t.cn_live ≡ s.cn_live)

set_busy-SameNodes :
    (client : ℕ) (b : Bool) (s t : Jobs) → set_busy client b s ≡ ok t → SameNodes s t
unfolding set_busy
set_busy-SameNodes client b s t e =
    let (_, _, e1) = bind-eq-ok (deref s.clients.ci_live client) _ e in
    let same = ok_same e1 in
    (
      sym (ap (λ (x : Jobs). x.cn_next) same),
      sym (ap (λ (x : Jobs). x.client) same),
      sym (ap (λ (x : Jobs). x.cn_live) same),
    )

drop_client-SameNodes : (jn : ℕ) (s t : Jobs) → drop_client jn s ≡ ok t → SameNodes s t
unfolding drop_client
drop_client-SameNodes jn s t e =
    let (_, _, e1) = bind-eq-ok (sub_int (s.num_clients jn) (pos 1)) _ e in
    let same = ok_same e1 in
    (
      sym (ap (λ (x : Jobs). x.cn_next) same),
      sym (ap (λ (x : Jobs). x.client) same),
      sym (ap (λ (x : Jobs). x.cn_live) same),
    )

-- The state of the nodes' links once `freeClient` has taken out a node with a node behind it.
take_client_out-links :
    (jn current client : ℕ) (s s' : Jobs)
    → s.cn_next current ≢ 0
    → take_client_out jn current client s ≡ ok s'
    → (s'.cn_next ≡ s.cn_next)
      × (s'.client ≡ s.client)
      × (s'.cn_live ≡ update s.cn_live current false)
unfolding take_client_out free_node
take_client_out-links jn current client s s' ne =
    let inner : is_null (s.cn_next current) ≡ false = ground arith in
    rw inner λ e.
      let (_, _, e1) = bind-eq-ok (deref s.cn_live current) _ e in
      let (_, _, e2) = bind-eq-ok (deref s.cn_live (s.cn_next current)) _ e1 in
      let (s1, busy, e3) = bind-eq-ok (set_busy client false _) _ e2 in
      let (s2, drop, e4) = bind-eq-ok (drop_client jn s1) _ e3 in
      let (_, _, e5) = bind-eq-ok (deref s2.cn_live current) _ e4 in
      let (n1, c1, l1) = set_busy-SameNodes client false _ s1 busy in
      let (n2, c2, l2) = drop_client-SameNodes jn s1 s2 drop in
      let same = ok_same e5 in
      (
        sym (ap (λ (x : Jobs). x.cn_next) same) ∙ (n2 ∙ n1),
        sym (ap (λ (x : Jobs). x.client) same) ∙ (c2 ∙ c1),
        sym (ap (λ (x : Jobs). x.cn_live) same)
            ∙ ap (λ (l : ℕ → Bool). update l current false) (l2 ∙ l1),
      )

-- After `freeClient` has taken a node out of the middle of a job's list, a search that comes to the
-- node before it, and has to go on, uses the freed node.
pub find_client-take_client_out :
    (f jn current client before wanted : ℕ) (s s' : Jobs)
    → s.cn_next current ≢ 0
    → take_client_out jn current client s ≡ ok s'
    → s.cn_live before ≡ true
    → s.cn_next before ≡ current
    → s.client before ≢ wanted
    → before ≢ 0
    → before ≢ current
    → current ≢ 0
    → find_client (suc (suc f)) before wanted s' ≡ fault
unfolding find_client deref
find_client-take_client_out f jn current client before wanted s s' ne e live next other b0 bc c0 =
    let (n, c, l) = take_client_out-links jn current client s s' ne e in
    let b_set : is_null before ≡ false = ground arith in
    let c_set : is_null current ≡ false = ground arith in
    let goes_on : (s'.client before == wanted) ≡ false =
      ground (arith, ap (λ (g : ℕ → ℕ). g before) c) in
    let b_live : s'.cn_live before ≡ true = ap (λ (g : ℕ → Bool). g before) l ∙ ground arith in
    let freed : s'.cn_live current ≡ false = ap (λ (g : ℕ → Bool). g current) l ∙ ground arith in
    let to_freed : s'.cn_next before ≡ current = ap (λ (g : ℕ → ℕ). g before) n ∙ next in
    rw (b_set, b_live, goes_on, to_freed, c_set, freed) refl

unlink_job-ends :
    (jn : ℕ) (s t : Jobs)
    → unlink_job jn s ≡ ok t
    → (t.job_head jn ≡ s.job_head jn) × (t.job_tail jn ≡ s.job_tail jn)
unfolding unlink_job deref
unlink_job-ends jn s t e = ground arith

double_free : (a : ℕ) (s t u : Jobs) → free_node a s ≡ ok t → free_node a t ≢ ok u
unfolding free_node deref
double_free a s t u e = ground arith

free_node-ends : (a jn : ℕ) (s t : Jobs) → free_node a s ≡ ok t → t.job_tail jn ≡ s.job_tail jn
unfolding free_node deref
free_node-ends a jn s t e = ground arith

-- `removeJob` never removes a job whose list of clients is empty: head and tail of the list are
-- then the same node, which is freed twice.
pub remove_job-empty :
    (fuel jn : ℕ) (job_id : ℤ) (s : Jobs)
    → get_job_node fuel job_id s ≡ ok jn
    → jn ≢ 0
    → s.job_head jn ≡ s.job_tail jn
    → (s' : Jobs) → remove_job fuel job_id s ≢ ok (true, s')
unfolding remove_job
remove_job-empty fuel jn job_id s found ne one s' =
    let set : is_null jn ≡ false = ground arith in
    rw (found, set)
      λ e.
        let (_, _, e1) = bind-eq-ok (deref s.jn_live jn) _ e in
        let (_, _, e2) = bind-eq-ok (deref s.cn_live (s.job_head jn)) _ e1 in
        let (_, _, e3) = bind-eq-ok (deref s.cn_live (s.job_tail jn)) _ e2 in removed_twice _ e3
  where
    removed_twice :
        (empty : Bool)
        → ◌≢◌ {A = Run (Bool × Jobs)}
            (if empty
              then (do
                s1 ← unlink_job jn s
                s2 ← free_node (s1.job_head jn) s1
                s3 ← free_node (s2.job_tail jn) s2
                ok (true, record s3 { jn_live = update s3.jn_live jn false }))
              else ok (false, s))
            (ok (true, s'))
    removed_twice false e = absurd (not_removed e)
      where
        not_removed : ◌≢◌ {A = Run (Bool × Jobs)} (ok (false, s)) (ok (true, s'))
        not_removed x = ground arith
    removed_twice true e =
        let (s1, e1, e2) = bind-eq-ok (unlink_job jn s) _ e in
        let (s2, e3, e4) = bind-eq-ok (free_node (s1.job_head jn) s1) _ e2 in
        let (s3, e5, _) = bind-eq-ok (free_node (s2.job_tail jn) s2) _ e4 in
        let (head, tail) = unlink_job-ends jn s s1 e1 in
        let same : s2.job_tail jn ≡ s1.job_head jn =
          free_node-ends (s1.job_head jn) jn s1 s2 e3 ∙ (tail ∙ (sym one ∙ sym head)) in
        double_free (s1.job_head jn) s1 s2 s3 e3 (subst (λ a. free_node a s2 ≡ ok s3) same e5)
