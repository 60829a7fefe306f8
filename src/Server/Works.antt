-- ===== src/Server/Works.antt =====
-- The functions of server/src/server_helper.c and server/src/server.c that call those of
-- server/src/jobs.c leave the lists of the registry alone.
use pyramid.Prelude.{
  as_int, ℕ, ◌≡◌, sym, ap, ◌∙◌, Bool, true, false, if◌then◌else◌, pos_part, List, [], ◌∷◌, arith,
  Option, none, some, ℤ,
}
use pyramid.Wire.{Run, ok, Bytes, c_string}
use pyramid.Wire.Laws.{bind-eq-ok}
use pyramid.Tlv.{Tlv}
use pyramid.Jobs.{Jobs}
use pyramid.Jobs.Reassign.{reassign_job}
use pyramid.Jobs.Flow.{update_job_result, init_job}
use pyramid.Jobs.Kept.{forget, reassign_job-Kept}
use pyramid.Jobs.Kept.Flow.{init_job-Kept, update_job_result-Kept}
use pyramid.Server.{System, Server, Work, send_parts, run_jobs}
use pyramid.Central.{text, db_server_divide}
use pyramid.Server.Unchanged.{send_to-jobs}
use pyramid.Server.Replies.{
  sh_display_job_results, sh_allocate_job_id, sh_send_job_failure_to_cli, sh_execute_job, start,
  submit_job,
}
use pyramid.Server.Events.{reassign_lost, finish_result, handle_value}
use pyramid.Server.Kept.{
  reply-jobs, sh_display_job_results-jobs, sh_send_job_result_to_cli-jobs, sh_parse_cmd-jobs,
}

abbrev pub Kept : {P : Type 0} → Server P → Server P → Type 0
Kept s s' = forget s'.jobs.clients ≡ forget s.jobs.clients

module _ {P : Type 0} (sys : System P) (fuel : ℕ) where
  send_parts-jobs :
      (parts : List (ℕ × Bytes × ℕ)) (s s' : Server P)
      → send_parts sys fuel parts s ≡ ok s'
      → s'.jobs ≡ s.jobs
  unfolding send_parts
  send_parts-jobs [] s s' e = grind arith
  send_parts-jobs (part ∷ parts) s s' e = grind (arith, send_to-jobs, send_parts-jobs parts)

  same_server :
      {a b : Bool} {s t : Server P}
      → ◌≡◌ {A = Run (Bool × Server P)} (ok (a, s)) (ok (b, t))
      → s ≡ t
  same_server e = cc

  run_jobs-Kept :
      (f : Jobs → Run (Bool × Jobs)) (s s' : Server P) (r : Bool)
      → ((j j' : Jobs) (b : Bool) → f j ≡ ok (b, j') → forget j'.clients ≡ forget j.clients)
      → run_jobs sys fuel f s ≡ ok (r, s')
      → Kept s s'
  unfolding run_jobs
  run_jobs-Kept f s s' r h e =
      let (done, ran, e1) = bind-eq-ok (f s.jobs) _ e in
      let j : Jobs = done.1 in
      let emptied : Server P = record s { jobs = record j { sent = [] } } in
      let (s1, sent, e2) =
        bind-eq-ok (send_parts sys fuel j.sent emptied) (λ t. ok (done.0, t)) e1 in
      let last : s1 ≡ s' = same_server e2 in
      let quiet : s1.jobs ≡ emptied.jobs = send_parts-jobs j.sent emptied s1 sent in
      ap (λ (t : Server P). forget t.jobs.clients) (sym last)
      ∙ (ap (λ (k : Jobs). forget k.clients) quiet ∙ h s.jobs j done.0 ran)

  start-Kept :
      (work : Work) (job_id : ℤ) (s s' : Server P) (r : Bool)
      → start sys fuel work job_id s ≡ ok (r, s')
      → Kept s s'
  unfolding start
  start-Kept work job_id s s' r e =
      let ip = c_string s.settings.central_repo_ip in
      let jd = c_string s.settings.job_directory in
      let divide = db_server_divide sys.run_command s.settings in
      let task : ℕ = pos_part work.task in
      run_jobs-Kept
        (init_job ip jd sys.malloc_cn sys.malloc_jn divide fuel work.group (as_int job_id) task
          work.input_file)
        s s' r
        (init_job-Kept ip jd sys.malloc_cn sys.malloc_jn divide fuel work.group (as_int job_id) task
          work.input_file)
        e

  sh_execute_job-jobs :
      (cfd : ℕ) (job_id task group : ℤ) (file : Bytes) (s s' : Server P)
      → sh_execute_job sys fuel cfd job_id task group file s ≡ ok s'
      → s'.jobs ≡ s.jobs
  unfolding sh_execute_job
  sh_execute_job-jobs cfd job_id task group file s s' e = grind (arith, reply-jobs)

  sh_send_job_failure_to_cli-jobs :
      (cfd : ℕ) (job_id : ℤ) (s s' : Server P)
      → sh_send_job_failure_to_cli sys fuel cfd job_id s ≡ ok s'
      → s'.jobs ≡ s.jobs
  unfolding sh_send_job_failure_to_cli
  sh_send_job_failure_to_cli-jobs cfd job_id s s' e = grind (arith, reply-jobs)

  sh_allocate_job_id-jobs :
      (s s' : Server P) (n : ℤ) → sh_allocate_job_id sys fuel s ≡ ok (n, s') → s'.jobs ≡ s.jobs
  unfolding sh_allocate_job_id
  sh_allocate_job_id-jobs s s' n e = grind arith

  told :
      (cfd : ℕ) (job_id : ℤ) (started : Bool) (s s' : Server P)
      → (if started
          then sh_display_job_results sys fuel cfd job_id s
          else sh_send_job_failure_to_cli sys fuel cfd job_id s)
        ≡ ok s'
      → Kept s s'
  told cfd job_id true s s' e =
      ap (λ (j : Jobs). forget j.clients) (sh_display_job_results-jobs sys fuel cfd job_id s s' e)
  told cfd job_id false s s' e =
      ap (λ (j : Jobs). forget j.clients) (sh_send_job_failure_to_cli-jobs cfd job_id s s' e)

  pub submit_job-Kept :
      (work : Work) (s s' : Server P) → submit_job sys fuel work s ≡ ok s' → Kept s s'
  unfolding submit_job
  submit_job-Kept work s s' e =
      let (numbered, allocated, e1) = bind-eq-ok (sh_allocate_job_id sys fuel s) _ e in
      let (s2, executed, e2) =
        bind-eq-ok
          (sh_execute_job sys fuel work.cfd numbered.0 work.task work.group work.input_file
            numbered.1)
          _ e1 in
      let (started, began, e3) = bind-eq-ok (start sys fuel work numbered.0 s2) _ e2 in
      told work.cfd numbered.0 started.0 started.1 s' e3
      ∙ (start-Kept work numbered.0 s2 started.1 started.0 began
          ∙ ap (λ (j : Jobs). forget j.clients)
              (sh_execute_job-jobs work.cfd numbered.0 work.task work.group work.input_file
                  numbered.1 s2 executed
                ∙ sh_allocate_job_id-jobs s numbered.1 numbered.0 allocated))

  pub reassign_lost-Kept :
      (client_fd : ℕ) (s s' : Server P) (r : Bool)
      → reassign_lost sys fuel client_fd s ≡ ok (r, s')
      → Kept s s'
  unfolding reassign_lost
  reassign_lost-Kept client_fd s s' r e =
      let ip = c_string s.settings.central_repo_ip in
      let jd = c_string s.settings.job_directory in
      run_jobs-Kept (reassign_job ip jd sys.malloc_cn fuel client_fd) s s' r
        (reassign_job-Kept sys.malloc_cn ip jd fuel client_fd) e

  finish_result-Kept :
      (client_fd : ℕ) (tlv : Tlv) (value : Bytes) (s s' : Server P)
      → finish_result sys fuel client_fd tlv value s ≡ ok s'
      → Kept s s'
  unfolding finish_result
  finish_result-Kept client_fd tlv value s s' e =
      let (chars, _, e1) = bind-eq-ok (text value) _ e in
      let ip = c_string s.settings.central_repo_ip in
      let jd = c_string s.settings.job_directory in
      let update = update_job_result ip jd fuel client_fd (sys.number chars) in
      let (taken, updated, e2) = bind-eq-ok (run_jobs sys fuel update s) _ e1 in
      let told = sh_send_job_result_to_cli-jobs sys fuel client_fd tlv taken.1 s' e2 in
      ap (λ (j : Jobs). forget j.clients) told
      ∙ run_jobs-Kept update s taken.1 taken.0
          (update_job_result-Kept ip jd fuel client_fd (sys.number chars)) updated

  pub handle_value-Kept :
      (client_fd : ℕ) (tlv : Tlv) (value : Option Bytes) (s s' : Server P)
      → handle_value sys fuel client_fd tlv value s ≡ ok s'
      → Kept s s'
  unfolding handle_value
  handle_value-Kept client_fd tlv none s s' e = grind arith
  handle_value-Kept client_fd tlv (some value) s s' e =
      grind (arith, sh_parse_cmd-jobs, finish_result-Kept, reassign_lost-Kept)
