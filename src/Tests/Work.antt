-- ===== src/Tests/Work.antt =====
-- Clients, jobs and received pieces at concrete states.
use pyramid.Prelude.{
  ℕ, ◌%◌, ◌≡◌, refl, Bool, true, false, List, [], ◌∷◌, arith, if◌then◌else◌, update, ◌==◌, pos,
  negsuc,
}
use pyramid.Wire.{Run, ok, fault, out_of_fuel, exit}
use pyramid.Links.{insert_front, deref}
use pyramid.Groups.{
  server_get_client_gid_head, server_initialize_client_group_node, add_node,
  server_alloc_client_group_node, server_add_client_to_one_group, add_to_groups,
  server_add_client_to_groups,
}
use pyramid.Registry.{
  Clients, server_search_client_fd, search_from, server_add_one_new_client_fd,
  server_alloc_client_info_node, link_client, server_initialize_client_info_node,
  server_destroy_client_info_node,
}
use pyramid.Registry.Lookup.{server_add_one_new_client_fd-search}
use pyramid.Jobs.{
  Jobs, lock, unlock, find_client, take_client_out, set_busy, drop_client, free_node, get_job_node,
  find_job,
}
use pyramid.Jobs.Reserve.{add_job}
use pyramid.Jobs.Flow.{update_job_result}
use pyramid.Jobs.Locks.{update_job_result-add_job}
use pyramid.Jobs.Removal.{find_client-take_client_out}
use pyramid.Messages.{sub_int, Progress}
use pyramid.Messages.Stream.{Message, stream}
use pyramid.Messages.Text.{record_text}
use pyramid.Receive.{bytes, failed, receive_data}
use pyramid.Receive.Batches.{IsBatch, drained, receive_data-record_text}
use pyramid.Tests.Registry.{no_groups}
use pyramid.Tlv.Attribute.{algo_max}

abbrev one_address : ℕ → (ℕ → Bool) → ℕ
one_address a live = if live a then 0 else a

abbrev no_clients : Clients
no_clients = record {
  groups = no_groups;
  ci_live = λ _. false;
  l = λ _. 0;
  r = λ _. 0;
  cg = λ _. 0;
  tgid = λ _. 0;
  cfd = λ _. 0;
  cip = λ _. 0;
  cp = λ _. 0;
  busy = λ _. false;
  jn = λ _. 0;
  heads = λ _. 0;
  counts = λ _. 0;
}

abbrev state_of {ℓ} : {A : Type ℓ} → A → Run (Bool × A) → A
state_of a (ok (b, s)) = s
state_of a fault = a
state_of a out_of_fuel = a
state_of a exit = a

-- Client 100 with descriptor 7 joins group 5.
abbrev one_client : Clients
one_client =
    state_of no_clients (
      server_add_one_new_client_fd (one_address 11) (one_address 100) 7 7 (0, 0) (5 ∷ [])
        no_clients)

joins :
    server_add_one_new_client_fd (one_address 11) (one_address 100) 7 7 (0, 0) (5 ∷ []) no_clients
    ≡ ok (true, one_client)
unfolding server_add_one_new_client_fd server_alloc_client_info_node link_client
    server_initialize_client_info_node server_destroy_client_info_node insert_front deref
    server_add_client_to_groups add_to_groups server_add_client_to_one_group
    server_alloc_client_group_node add_node server_initialize_client_group_node
    server_get_client_gid_head
joins = refl

server_add_one_new_client_fd-search_example : server_search_client_fd 1 7 7 one_client ≡ ok 100
server_add_one_new_client_fd-search_example =
    server_add_one_new_client_fd-search (one_address 11) (one_address 100) 0 7 7 (0, 0) (5 ∷ [])
      no_clients one_client joins

abbrev pub worker : Clients
worker = record no_clients {
  ci_live = update (λ _. false) 100 true;
  cfd = λ _. 7;
  jn = λ _. 31;
  heads = update (λ _. 0) 7 100;
}

-- Job 0 at node 31 has the nodes 21 (the head), 22 and 23; 22 is the node of client 100.
abbrev pub one_job : Jobs
one_job = record {
  clients = worker;
  cn_live = λ a. if a == 21 then true else if a == 22 then true else a == 23;
  client = update (λ _. 0) 22 100;
  cn_prev = update (update (λ _. 0) 23 22) 22 21;
  cn_next = update (update (λ _. 0) 21 22) 22 23;
  index = λ _. 0;
  jid = λ _. pos 0;
  jn_live = λ a. if a == 30 then true else a == 31;
  locked = λ _. false;
  id = update (λ _. negsuc 0) 31 (pos 0);
  result = λ _. pos 0;
  task_type = λ _. 102;
  job_head = update (λ _. 0) 31 21;
  job_tail = update (λ _. 0) 31 23;
  num_clients = update (λ _. pos 0) 31 (pos 2);
  jn_prev = update (λ _. 0) 31 30;
  jn_next = update (λ _. 0) 30 31;
  p_head = 30;
  p_tail = 31;
  q_head = 0;
  q_tail = 0;
  sent = [];
}

abbrev added_job : Run (ℕ × Jobs)
added_job = add_job (one_address 24) (one_address 32) (pos 1) 102 one_job

abbrev two_jobs : Jobs
two_jobs = elim added_job [
  | ok (a, s) ↦ s
  | fault ↦ one_job
  | out_of_fuel ↦ one_job
  | exit ↦ one_job
]

adds : added_job ≡ ok (32, two_jobs)
unfolding add_job lock unlock deref
adds = refl

finds : server_search_client_fd 1 (7 % 255) 7 worker ≡ ok 100
unfolding server_search_client_fd search_from deref
finds = refl

update_job_result-add_job_example : update_job_result [] [] 1 7 (pos 42) two_jobs ≡ out_of_fuel
update_job_result-add_job_example =
    update_job_result-add_job [] [] (one_address 24) (one_address 32) 1 7 100 102 32 (pos 1)
      (pos 42) one_job two_jobs adds (omega arith) finds (omega arith) refl

abbrev without_22 : Jobs
without_22 = elim (take_client_out 31 22 100 one_job) [
  | ok s ↦ s
  | fault ↦ one_job
  | out_of_fuel ↦ one_job
  | exit ↦ one_job
]

takes_out : take_client_out 31 22 100 one_job ≡ ok without_22
unfolding take_client_out set_busy drop_client free_node deref sub_int
takes_out = refl

find_client-take_client_out_example : find_client 2 21 200 without_22 ≡ fault
find_client-take_client_out_example =
    find_client-take_client_out 0 31 22 100 21 200 one_job without_22 (omega arith) takes_out refl
      refl (omega arith) (omega arith) (omega arith) (omega arith)

abbrev empty_job : Jobs
empty_job = record one_job { job_tail = one_job.job_head; cn_next = λ _. 0 }

finds_job : get_job_node 1 (pos 0) empty_job ≡ ok 31
unfolding get_job_node find_job deref
finds_job = refl

abbrev text : Message
text = record { type = algo_max; chars = b'4' ∷ b'2' ∷ [] }

abbrev nothing : Progress (List Message)
nothing = record { g_groups = []; done = false; state = [] }

one-IsBatch : IsBatch 3 (text ∷ [])
one-IsBatch = record {
  texts = (((refl, omega arith), (omega arith, (omega arith, tt))), tt);
  not_empty = omega arith;
  rounds = omega arith;
  small = omega arith;
}

receive_data-record_text_example :
    receive_data record_text 4
      (9 ∷ [])
      true
      (bytes (stream (text ∷ [])) ∷ bytes (stream (text ∷ [])) ∷ failed true ∷ [])
      nothing
    ≡ ok (false, record nothing { state = text ∷ text ∷ [] })
receive_data-record_text_example =
    receive_data-record_text 3 (9 ∷ []) true ((text ∷ []) ∷ (text ∷ []) ∷ []) (failed true) false
      nothing (one-IsBatch, (one-IsBatch, tt)) drained refl
