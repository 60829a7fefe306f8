-- ===== src/Server/Replies.antt =====
-- server/src/server_helper.c: the replies of one text, the settings, and the work of a job.
use pyramid.Prelude.{
  as_int, ℕ, ◌+◌, ◌-◌, ◌%◌, Bool, ◌&&◌, none, some, [], ◌∷◌, ◌++◌, leb, ltb, if◌then◌else◌, take, ℤ,
  pos, negsuc, pos_part, leb_ℤ, replicate,
}
use pyramid.Wire.{Run, ok, fault, ◌>>=◌, Bytes, c_string}
use pyramid.Tlv.{Tlv}
use pyramid.Tlv.Attribute.{cli_data, algo_error}
use pyramid.Links.{is_null}
use pyramid.Jobs.{Jobs, get_job_node}
use pyramid.Jobs.Assign.{decimal, show_int}
use pyramid.Jobs.Flow.{init_job}
use pyramid.Central.{text, db_server_divide}
use pyramid.Server.{System, Server, Work, run_jobs}
use pyramid.Server.Display.{add_text, send_rest}

-- `strncpy(array, string, n)`: the string, cut or filled up with NULs.
pub strncpy : ℕ → Bytes → Bytes
strncpy n string = take n (string ++ replicate n 0)

-- The `char` that an `int` is cut to.
pub as_char : ℤ → ℤ
as_char (pos n) = let c = n % 256 in if ltb c 128 then pos c else negsuc (255 - c)
as_char (negsuc n) = let c = n % 256 in if ltb c 128 then negsuc c else pos (255 - c)

module _ {P : Type 0} (sys : System P) (fuel : ℕ) where
  -- The buffer, `snprintf`, `sh_try_to_send_data` and the rest, which the functions below share.
  unfoldable pub reply : ℕ → Bytes → ℕ → Server P → Run (Server P)
  unfolding add_text send_rest
  reply fd line type s = do
    b ← add_text sys fuel fd line type (sys.stack, 0, s)
    send_rest sys fuel fd type b

  unfoldable pub sh_display_job_details : ℕ → ℤ → Server P → Run (Server P)
  unfolding reply show_int
  sh_display_job_details cfd job_id =
      reply cfd
        ((10 ∷ b'J' ∷ b'o' ∷ b'b' ∷ 32 ∷ b'D' ∷ b'e' ∷ b't' ∷ b'a' ∷ b'i' ∷ b'l' ∷ b's' ∷ 32 ∷ b'f'
            ∷ b'o' ∷ b'r' ∷ 32 ∷ b'J' ∷ b'o' ∷ b'b' ∷ b':' ∷ 32 ∷ [])
          ++ (show_int job_id
              ++ ((b',' ∷ 32 ∷ b'c' ∷ b'd' ∷ b'f' ∷ 32 ∷ []) ++ (decimal cfd ++ (10 ∷ [])))))
        cli_data

  -- The line for the job's node `jn`, or for NULL.
  pub result_line : ℕ → ℤ → Jobs → Bytes
  unfolding show_int
  result_line jn job_id j =
      if is_null jn
      then 10 ∷ b'I' ∷ b'n' ∷ b'v' ∷ b'a' ∷ b'l' ∷ b'i' ∷ b'd' ∷ 32 ∷ b'J' ∷ b'o' ∷ b'b' ∷ 32 ∷ b'I'
        ∷ b'd' ∷ 32 ∷ []
      else (10 ∷ b'J' ∷ b'o' ∷ b'b' ∷ 32 ∷ [])
        ++ (show_int job_id
            ++ ((b',' ∷ 32 ∷ b'R' ∷ b'e' ∷ b's' ∷ b'u' ∷ b'l' ∷ b't' ∷ 32 ∷ b':' ∷ 32 ∷ [])
                ++ (if leb_ℤ (j.num_clients jn) (pos 0) && leb_ℤ (pos 0) (j.num_clients jn)
                    then show_int (j.result jn)
                    else b'J' ∷ b'o' ∷ b'b' ∷ 32 ∷ b's' ∷ b't' ∷ b'i' ∷ b'l' ∷ b'l' ∷ 32 ∷ b'i'
                      ∷ b'n' ∷ 32 ∷ b'P' ∷ b'r' ∷ b'o' ∷ b'g' ∷ b'r' ∷ b'e' ∷ b's' ∷ b's' ∷ b'.'
                      ∷ b'.' ∷ [])))

  unfoldable pub sh_display_job_results : ℕ → ℤ → Server P → Run (Server P)
  unfolding reply result_line as_int
  sh_display_job_results cfd job_id s = do
    jn ← get_job_node fuel (as_int job_id) s.jobs
    reply cfd (result_line jn job_id s.jobs) cli_data s

  -- The identifier is a `long long`.
  unfoldable pub sh_allocate_job_id : Server P → Run (ℤ × Server P)
  sh_allocate_job_id s =
      let next = s.sh_job_id + 1 in
      if leb 9223372036854775808 next then fault else ok (pos next, record s { sh_job_id = next })

  unfoldable pub sh_send_job_failure_to_cli : ℕ → ℤ → Server P → Run (Server P)
  unfolding reply decimal
  sh_send_job_failure_to_cli cli_fd job_id = reply cli_fd (decimal algo_error) algo_error

  unfoldable pub sh_send_job_result_to_cli : ℕ → Tlv → Server P → Run (Server P)
  unfolding reply text
  sh_send_job_result_to_cli client_fd tlv s = elim tlv.value [
    | none ↦ fault
    | some v ↦ (do chars ← text v; reply client_fd (b'[' ∷ (chars ++ (b']' ∷ []))) cli_data s)
  ]

  -- `task` is the type of the message too.
  unfoldable pub sh_execute_job : ℕ → ℤ → ℤ → ℤ → Bytes → Server P → Run (Server P)
  unfolding reply show_int text
  sh_execute_job cfd job_id task group file s = do
    name ← text file
    reply cfd
        ((9 ∷ 32 ∷ b'J' ∷ b'o' ∷ b'b' ∷ 32 ∷ 32 ∷ 32 ∷ b':' ∷ 32 ∷ [])
          ++ (show_int job_id
              ++ ((32 ∷ 10 ∷ 9 ∷ 32 ∷ b't' ∷ b'a' ∷ b's' ∷ b'k' ∷ 32 ∷ 32 ∷ b':' ∷ [])
                  ++ (show_int task
                      ++ ((32 ∷ 10 ∷ 9 ∷ 32 ∷ b'g' ∷ b'r' ∷ b'o' ∷ b'u' ∷ b'p' ∷ 32 ∷ b':' ∷ [])
                          ++ (show_int group
                              ++ ((32 ∷ 10 ∷ 9 ∷ 32 ∷ b'f' ∷ b'i' ∷ b'l' ∷ b'e' ∷ 32 ∷ 32 ∷ b':'
                                    ∷ 32 ∷ [])
                                  ++ (name ++ (32 ∷ 10 ∷ [])))))))))
        (pos_part task) s

  unfoldable pub sh_set_repository : ℕ → Bytes → Bytes → Bytes → Bytes → Server P → Run (Server P)
  unfolding reply strncpy text
  sh_set_repository cfd repository path user pwd s = do
    let settings = record s.settings {
      central_repo_ip = strncpy 20 repository;
      job_directory = strncpy 500 path;
      username = strncpy 20 user;
      passwd = strncpy 20 pwd;
    }
    ip ← text settings.central_repo_ip
    reply cfd
        ((10 ∷ b'C' ∷ b'e' ∷ b'n' ∷ b't' ∷ b'r' ∷ b'a' ∷ b'l' ∷ 32 ∷ b'r' ∷ b'e' ∷ b'p' ∷ b'o'
            ∷ b's' ∷ b'i' ∷ b't' ∷ b'o' ∷ b'r' ∷ b'y' ∷ 32 ∷ [])
          ++ ((b's' ∷ b'e' ∷ b't' ∷ 32 ∷ b't' ∷ b'o' ∷ 32 ∷ []) ++ (ip ++ (32 ∷ []))))
        cli_data (record s { settings = settings })

  unfoldable pub sh_set_job_timeout : ℕ → ℤ → Server P → Run (Server P)
  unfolding reply as_char show_int
  sh_set_job_timeout cfd timeout s =
      let settings = record s.settings { job_timeout = as_char timeout } in
      reply cfd
        ((10 ∷ b'J' ∷ b'o' ∷ b'b' ∷ 32 ∷ b't' ∷ b'i' ∷ b'm' ∷ b'e' ∷ b'o' ∷ b'u' ∷ b't' ∷ 32 ∷ [])
          ++ ((b'u' ∷ b'n' ∷ b's' ∷ b'e' ∷ b't' ∷ 32 ∷ b't' ∷ b'o' ∷ 32 ∷ [])
              ++ (show_int settings.job_timeout ++ (32 ∷ []))))
        cli_data (record s { settings = settings })

  unfoldable pub sh_set_job_queue_size : ℕ → ℤ → Server P → Run (Server P)
  unfolding reply show_int as_int
  sh_set_job_queue_size cfd size s =
      let settings = record s.settings { job_queue_size = as_int size } in
      reply cfd
        ((10 ∷ b'J' ∷ b'o' ∷ b'b' ∷ 32 ∷ b'Q' ∷ b'u' ∷ b'e' ∷ b'u' ∷ b'e' ∷ 32 ∷ b's' ∷ b'i' ∷ b'z'
            ∷ b'e' ∷ 32 ∷ b's' ∷ b'e' ∷ b't' ∷ 32 ∷ b't' ∷ b'o' ∷ 32 ∷ [])
          ++ (show_int settings.job_queue_size ++ (32 ∷ [])))
        cli_data (record s { settings = settings })

  -- `initJob` with the settings of the moment.
  unfoldable pub start : Work → ℤ → Server P → Run (Bool × Server P)
  unfolding as_int run_jobs db_server_divide
  start work job_id s =
      let ip = c_string s.settings.central_repo_ip in
      let jd = c_string s.settings.job_directory in
      run_jobs sys fuel
        (init_job ip jd sys.malloc_cn sys.malloc_jn (db_server_divide sys.run_command s.settings)
          fuel work.group (as_int job_id) (pos_part work.task) work.input_file)
        s

  unfoldable pub submit_job : Work → Server P → Run (Server P)
  unfolding sh_allocate_job_id sh_execute_job start sh_send_job_failure_to_cli
      sh_display_job_results
  submit_job work s = do
    (job_id, s1) ← sh_allocate_job_id s
    s2 ← sh_execute_job work.cfd job_id work.task work.group work.input_file s1
    (started, s3) ← start work job_id s2
    if started
        then sh_display_job_results work.cfd job_id s3
        else sh_send_job_failure_to_cli work.cfd job_id s3
