-- ===== src/Server/Kept.antt =====
-- What the functions of server/src/server_helper.c leave alone: but for the work of a job they change
-- neither the jobs nor the registry.
use pyramid.Prelude.{ℕ, zero, suc, ◌≡◌, ◌∙◌, arith, ℤ, pos, negsuc}
use pyramid.Wire.{Run, ok, Bytes}
use pyramid.Wire.Laws.{bind-eq-ok}
use pyramid.Tlv.{Tlv}
use pyramid.Server.{System, Server}
use pyramid.Server.Display.{
  add_text, send_rest, show_group, show_groups, sh_display_all_multicast_groups, show_bucket,
  show_buckets, sh_display_all_clients,
}
use pyramid.Server.Unchanged.{send_to-jobs, add_text-jobs}
use pyramid.Server.Replies.{
  reply, sh_display_job_details, sh_display_job_results, sh_set_repository, sh_set_job_timeout,
  sh_set_job_queue_size, sh_send_job_result_to_cli,
}
use pyramid.Server.Command.{
  strtok, set_repository, exec_job, with_number, run_opcode, run_number, sh_parse_cmd,
}

module _ {P : Type 0} (sys : System P) (fuel : ℕ) where
  send_rest-jobs :
      (fd type : ℕ) (b : Bytes × ℕ × Server P) (s' : Server P)
      → send_rest sys fuel fd type b ≡ ok s'
      → s'.jobs ≡ b.2.jobs
  unfolding send_rest
  send_rest-jobs fd type b s' e = grind (arith, send_to-jobs)

  pub reply-jobs :
      (fd : ℕ) (line : Bytes) (type : ℕ) (s s' : Server P)
      → reply sys fuel fd line type s ≡ ok s'
      → s'.jobs ≡ s.jobs
  unfolding reply
  reply-jobs fd line type s s' e =
      let (b, added, e1) = bind-eq-ok (add_text sys fuel fd line type (sys.stack, 0, s)) _ e in
      send_rest-jobs fd type b s' e1 ∙ add_text-jobs sys fuel fd line type (sys.stack, 0, s) b added

  show_group-jobs :
      (k fd cg : ℕ) (b b' : Bytes × ℕ × Server P)
      → show_group sys fuel k fd cg b ≡ ok b'
      → b'.2.jobs ≡ b.2.jobs
  unfolding show_group
  show_group-jobs zero fd cg b b' e = grind arith
  show_group-jobs (suc k) fd cg b b' e = grind (arith, add_text-jobs, show_group-jobs k)

  show_groups-jobs :
      (n fd : ℕ) (b b' : Bytes × ℕ × Server P)
      → show_groups sys fuel n fd b ≡ ok b'
      → b'.2.jobs ≡ b.2.jobs
  unfolding show_groups
  show_groups-jobs zero fd b b' e = grind arith
  show_groups-jobs (suc n) fd b b' e = grind (arith, show_group-jobs, show_groups-jobs n)

  show_bucket-jobs :
      (k fd ci : ℕ) (b b' : Bytes × ℕ × Server P)
      → show_bucket sys fuel k fd ci b ≡ ok b'
      → b'.2.jobs ≡ b.2.jobs
  unfolding show_bucket
  show_bucket-jobs zero fd ci b b' e = grind arith
  show_bucket-jobs (suc k) fd ci b b' e = grind (arith, add_text-jobs, show_bucket-jobs k)

  show_buckets-jobs :
      (n fd : ℕ) (b b' : Bytes × ℕ × Server P)
      → show_buckets sys fuel n fd b ≡ ok b'
      → b'.2.jobs ≡ b.2.jobs
  unfolding show_buckets
  show_buckets-jobs zero fd b b' e = grind arith
  show_buckets-jobs (suc n) fd b b' e = grind (arith, show_bucket-jobs, show_buckets-jobs n)

  sh_display_all_multicast_groups-jobs :
      (cfd : ℕ) (s s' : Server P)
      → sh_display_all_multicast_groups sys fuel cfd s ≡ ok s'
      → s'.jobs ≡ s.jobs
  unfolding sh_display_all_multicast_groups
  sh_display_all_multicast_groups-jobs cfd s s' e =
      let (b, shown, e1) = bind-eq-ok (show_groups sys fuel 1000 cfd (sys.stack, 0, s)) _ e in
      send_rest-jobs cfd _ b s' e1 ∙ show_groups-jobs 1000 cfd (sys.stack, 0, s) b shown

  sh_display_all_clients-jobs :
      (cfd : ℕ) (s s' : Server P) → sh_display_all_clients sys fuel cfd s ≡ ok s' → s'.jobs ≡ s.jobs
  unfolding sh_display_all_clients
  sh_display_all_clients-jobs cfd s s' e =
      let (b, shown, e1) = bind-eq-ok (show_buckets sys fuel 255 cfd (sys.stack, 0, s)) _ e in
      send_rest-jobs cfd _ b s' e1 ∙ show_buckets-jobs 255 cfd (sys.stack, 0, s) b shown

  sh_display_job_details-jobs :
      (cfd : ℕ) (n : ℤ) (s s' : Server P)
      → sh_display_job_details sys fuel cfd n s ≡ ok s'
      → s'.jobs ≡ s.jobs
  unfolding sh_display_job_details
  sh_display_job_details-jobs cfd n s s' e = grind (arith, reply-jobs)

  pub sh_display_job_results-jobs :
      (cfd : ℕ) (n : ℤ) (s s' : Server P)
      → sh_display_job_results sys fuel cfd n s ≡ ok s'
      → s'.jobs ≡ s.jobs
  unfolding sh_display_job_results
  sh_display_job_results-jobs cfd n s s' e = grind (arith, reply-jobs)

  sh_set_repository-jobs :
      (cfd : ℕ) (repo path user pwd : Bytes) (s s' : Server P)
      → sh_set_repository sys fuel cfd repo path user pwd s ≡ ok s'
      → s'.jobs ≡ s.jobs
  unfolding sh_set_repository
  sh_set_repository-jobs cfd repo path user pwd s s' e = grind (arith, reply-jobs)

  sh_set_job_timeout-jobs :
      (cfd : ℕ) (n : ℤ) (s s' : Server P)
      → sh_set_job_timeout sys fuel cfd n s ≡ ok s'
      → s'.jobs ≡ s.jobs
  unfolding sh_set_job_timeout
  sh_set_job_timeout-jobs cfd n s s' e = grind (arith, reply-jobs)

  sh_set_job_queue_size-jobs :
      (cfd : ℕ) (n : ℤ) (s s' : Server P)
      → sh_set_job_queue_size sys fuel cfd n s ≡ ok s'
      → s'.jobs ≡ s.jobs
  unfolding sh_set_job_queue_size
  sh_set_job_queue_size-jobs cfd n s s' e = grind (arith, reply-jobs)

  pub sh_send_job_result_to_cli-jobs :
      (cfd : ℕ) (tlv : Tlv) (s s' : Server P)
      → sh_send_job_result_to_cli sys fuel cfd tlv s ≡ ok s'
      → s'.jobs ≡ s.jobs
  unfolding sh_send_job_result_to_cli
  sh_send_job_result_to_cli-jobs cfd tlv s s' e = grind (arith, reply-jobs)

  -- The commands.
  with_number-jobs :
      (f : ℤ → Server P → Run (Server P)) (saved : Bytes) (s s' : Server P)
      → ((n : ℤ) (t t' : Server P) → f n t ≡ ok t' → t'.jobs ≡ t.jobs)
      → with_number sys fuel f saved s ≡ ok s'
      → s'.jobs ≡ s.jobs
  unfolding with_number
  with_number-jobs f saved s s' h e =
      let (n, _, e1) = bind-eq-ok (strtok saved) _ e in h (sys.number n.0) s s' e1

  set_repository-jobs :
      (cfd : ℕ) (saved : Bytes) (s s' : Server P)
      → set_repository sys fuel cfd saved s ≡ ok s'
      → s'.jobs ≡ s.jobs
  unfolding set_repository
  set_repository-jobs cfd saved s s' e = grind (arith, sh_set_repository-jobs)

  exec_job-jobs :
      (cfd : ℕ) (saved : Bytes) (s s' : Server P)
      → exec_job sys fuel cfd saved s ≡ ok s'
      → s'.jobs ≡ s.jobs
  unfolding exec_job
  exec_job-jobs cfd saved s s' e = grind arith

  run_opcode-jobs :
      (cfd opcode : ℕ) (saved : Bytes) (s s' : Server P)
      → run_opcode sys fuel cfd opcode saved s ≡ ok s'
      → s'.jobs ≡ s.jobs
  unfolding run_opcode
  run_opcode-jobs cfd opcode saved s s' e = ground (
    arith,
    sh_display_all_multicast_groups-jobs cfd s s',
    sh_display_all_clients-jobs cfd s s',
    with_number-jobs (sh_display_job_details sys fuel cfd) saved s s'
        (sh_display_job_details-jobs cfd),
    with_number-jobs (sh_display_job_results sys fuel cfd) saved s s'
        (sh_display_job_results-jobs cfd),
    exec_job-jobs cfd saved s s',
    set_repository-jobs cfd saved s s',
    with_number-jobs (sh_set_job_timeout sys fuel cfd) saved s s' (sh_set_job_timeout-jobs cfd),
    with_number-jobs (sh_set_job_queue_size sys fuel cfd) saved s s'
        (sh_set_job_queue_size-jobs cfd),
  )

  run_number-jobs :
      (cfd : ℕ) (opcode : ℤ) (saved : Bytes) (s s' : Server P)
      → run_number sys fuel cfd opcode saved s ≡ ok s'
      → s'.jobs ≡ s.jobs
  run_number-jobs cfd (pos opcode) saved s s' e = run_opcode-jobs cfd opcode saved s s' e
  run_number-jobs cfd (negsuc n) saved s s' e = grind arith

  pub sh_parse_cmd-jobs :
      (cfd : ℕ) (buff : Bytes) (s s' : Server P)
      → sh_parse_cmd sys fuel cfd buff s ≡ ok s'
      → s'.jobs ≡ s.jobs
  unfolding sh_parse_cmd
  sh_parse_cmd-jobs cfd buff s s' e = grind (arith, run_number-jobs, send_to-jobs)
