-- ===== src/Tests/Assignments.antt =====
-- A job for the group 5, whose third client is busy.
use pyramid.Prelude.{
  ℕ, ◌≡◌, refl, Bool, true, some, [], ◌∷◌, ◌++◌, arith, get_elem?, update, pos, if◌then◌else◌, ◌==◌,
}
use pyramid.Wire.{ok}
use pyramid.Groups.{server_get_client_gid_head}
use pyramid.Registry.{Clients}
use pyramid.Jobs.{Jobs}
use pyramid.Jobs.Assigned.{part_messages}
use pyramid.Jobs.Flow.{init_job}
use pyramid.Jobs.Init.{init_job-parts}
use pyramid.Tests.Work.{worker, one_job}

abbrev three_clients : Clients
three_clients = record worker {
  groups = record worker.groups {
    cg_live = λ a. if a == 11 then true else if a == 12 then true else a == 13;
    ci = update (update (λ _. 102) 11 100) 12 101;
    n = update (update (λ _. 0) 11 12) 12 13;
    h = update (λ _. 0) 4 11;
  };
  ci_live = λ a. if a == 100 then true else if a == 101 then true else a == 102;
  cfd = update (update (λ _. 9) 100 7) 101 8;
  busy = λ a. a == 102;
}

abbrev waiting : Jobs
waiting = record one_job { clients = three_clients }

-- The first of three addresses that is free.
abbrev next_node : (ℕ → Bool) → ℕ
next_node live = if live 41 then (if live 42 then 43 else 42) else 41

group_five : server_get_client_gid_head 5 ≡ some 4
unfolding server_get_client_gid_head
group_five = refl

init_job-parts_example :
    (s' : Jobs) × (init_job
        (47 ∷ [])
        (47 ∷ [])
        next_node
        (λ live. 32)
        (λ p j n. ok true)
        4
        (pos 5)
        (pos 1)
        102
        (47 ∷ 0 ∷ [])
        waiting
      ≡ ok (true, s'))
    × (s'.sent
        ≡ [] ++ part_messages (47 ∷ []) (47 ∷ []) three_clients.cfd (pos 1) 102 0 (100 ∷ 101 ∷ []))
    × ((k n : ℕ) → get_elem? (42 ∷ 43 ∷ []) k ≡ some n → s'.index n ≡ k)
init_job-parts_example =
    init_job-parts next_node (λ live. 32) (47 ∷ []) (47 ∷ []) (λ p j n. ok true) 4 4 4 1 102 32 41
      (47 ∷ []) [] (11 ∷ 12 ∷ 13 ∷ []) (42 ∷ 43 ∷ []) waiting (omega arith, tt) (omega arith)
      (omega arith) refl refl refl (omega arith)
      (refl, omega arith, refl, (refl, omega arith, refl, (refl, omega arith, refl, tt))) group_five
      (refl, omega arith, (refl, omega arith, (refl, omega arith, refl)))
      (refl, omega arith, refl, (refl, omega arith, refl, (refl, omega arith, refl, tt))) refl
      (omega arith) (omega arith) (omega arith) refl
