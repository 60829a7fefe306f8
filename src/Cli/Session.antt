-- ===== src/Cli/Session.antt =====
-- The loop of client/src/cli_commands.c over the lines of the terminal: `cli_main`, the commands that
-- it runs, and `receive_data`, which calls `cli_main` again.
use pyramid.Prelude.{
  ℕ, zero, suc, Bool, true, false, Option, none, some, List, [], ◌∷◌, ◌++◌, length, leb, take, drop,
  ◌==◌, if◌then◌else◌, ℤ, pos,
}
use pyramid.Wire.{Run, ok, fault, out_of_fuel, exit, ◌>>=◌, Bytes, c_string}
use pyramid.Messages.Network.{Screen, say, handle_network_message}
use pyramid.Receive.{Received, bytes, failed}
use pyramid.Sending.{Socket, Outcome, returned, exited, request_cli_data}
use pyramid.Cli.{
  Command, cli_print_multicast_groups, cli_print_clients, cli_logging_level, cli_help,
  cli_clear_screen, cli_set_repository_address, cli_set_job_timeout, cli_print_job_result,
  cli_print_job_details, cli_set_job_result_queue_size, cli_exec_task, unsupported, not_found,
  strings_equal,
}
use pyramid.Cli.Requests.{parse_cli, request}
use pyramid.Cli.Screens.{
  help_lines, banner_lines, prompt_line, end_line, unsupported_line, not_found_lines, groups_line,
  clients_line, job_details_line, job_result_line, size_line, submitted_line,
}

-- `input` is what is typed, line by line, each with its newline, but for the last perhaps;
-- `incoming` is what `recv` will return. The socket is `cli_fd`.
pub record Terminal : Type 0 where
  pub socket : Socket
  pub screen : Screen
  pub init_cli_interface : Bool
  pub input : List Bytes
  pub incoming : List Received

-- The calls of the system and of the C library. `number` is `atoi` and `strtol`, `block` is `malloc`
-- with what the bytes hold, and `clears` says that `system("clear")` does not return -1. `stack` is
-- what lies in a local array behind what was written, and `spare` says that the byte before the
-- array of `recv` belongs to nothing else.
pub record Console : Type 0 where
  pub send : ℕ → ℕ → Option ℕ
  pub number : Bytes → ℤ
  pub block : ℕ → Bytes
  pub clears : Bool
  pub stack : Bytes
  pub spare : Bool

abbrev pub print : Bytes → Terminal → Terminal
print text t = record t { screen = say text t.screen }

abbrev pub print_all : List Bytes → Terminal → Terminal
print_all texts t =
    let s = t.screen in record t { screen = record s { printed = s.printed ++ texts } }

abbrev pub set_exec : Bool → Terminal → Terminal
set_exec b t = let s = t.screen in record t { screen = record s { exec = b } }

abbrev pub keep_reply : Terminal → List Received × Screen → Terminal
keep_reply t r = record t { incoming = r.0; screen = r.1 }

-- `fgets(str, 100, stdin)`: at most 99 characters of a line, of which the next call reads the rest.
unfoldable pub fgets : Bytes → List Bytes → Bytes × List Bytes
fgets line lines =
    if leb (length line) 99 then (line, lines) else (take 99 line, drop 99 line ∷ lines)

-- `str[len-1] = '\0'`; for an empty string this is the byte before the array.
unfoldable pub cut_last : Bytes → Run Bytes
cut_last [] = fault
cut_last (c ∷ []) = ok []
cut_last (c ∷ d ∷ p) = do r ← cut_last (d ∷ p); ok (c ∷ r)

abbrev pub keep_sent : Terminal → Outcome → Run Terminal
keep_sent t (returned k) = ok (record t { socket = k })
keep_sent t (exited k) = exit

-- "exit"
abbrev pub exit_word : Bytes
exit_word = b'e' ∷ b'x' ∷ b'i' ∷ b't' ∷ []

module _ (c : Console) (fuel : ℕ) where
  -- The loop of `receive_data`. After -1 it goes on, whatever `errno` is.
  unfoldable pub receive_reply : List Received → Screen → Run (List Received × Screen)
  unfolding handle_network_message
  receive_reply [] s = out_of_fuel
  receive_reply (failed again ∷ rs) s =
      let further = receive_reply rs s in if c.spare then further else fault
  receive_reply (bytes b ∷ rs) s =
      let handled = (do
        (done, s') ← handle_network_message fuel (b ++ (0 ∷ c.stack)) (pos (length b)) s
        let further = receive_reply rs s'
        if done then ok (rs, s') else further) in
      if leb 1024 (length b) then fault else if length b == 0 then ok (rs, s) else handled

  -- `request_cli_data(buffer)` for the array that the command has filled.
  unfoldable pub send_request : Option (Run Bytes) → Terminal → Run Terminal
  send_request none t = ok t
  send_request (some filled) t = do
    buffer ← filled
    o ← request_cli_data c.send fuel buffer t.socket
    keep_sent t o

  unfoldable pub ask : Command → Terminal → Run Terminal
  unfolding send_request request
  ask command t = send_request (request command) t

  -- `cli_main` is the call at the end of `receive_data`.
  module _ (cli_main : Terminal → Run Terminal) where
    unfoldable pub receive_data : Terminal → Run Terminal
    unfolding receive_reply
    receive_data t = do
      r ← receive_reply t.incoming t.screen
      let t1 = keep_reply t r
      elim t1.screen.exec [ true ↦ ok t1 | false ↦ cli_main t1 ]

    unfoldable pub run_command : Command → Terminal → Run Terminal
    unfolding ask receive_data
    run_command cli_print_multicast_groups t = do
      t1 ← ask cli_print_multicast_groups (print groups_line t)
      receive_data t1
    run_command cli_print_clients t = do
      t1 ← ask cli_print_clients (print clients_line t)
      receive_data t1
    run_command (cli_logging_level level) t = ask (cli_logging_level level) t
    run_command cli_help t = ok (print_all help_lines t)
    run_command cli_clear_screen t = if c.clears then ok t else exit
    run_command (cli_set_repository_address ip path username pwd) t = do
      t1 ← ask (cli_set_repository_address ip path username pwd) t
      t2 ← receive_data t1
      ok (print (10 ∷ []) t2)
    run_command (cli_set_job_timeout timeout) t = do
      t1 ← ask (cli_set_job_timeout timeout) t
      t2 ← receive_data t1
      ok (print (10 ∷ []) t2)
    run_command (cli_print_job_result job_id) t = do
      t1 ← ask (cli_print_job_result job_id) (print (job_result_line job_id) t)
      t2 ← receive_data t1
      ok (print (10 ∷ []) t2)
    run_command (cli_print_job_details job_id) t = do
      t1 ← ask (cli_print_job_details job_id) (print (job_details_line job_id) t)
      t2 ← receive_data t1
      ok (print (10 ∷ []) t2)
    run_command (cli_set_job_result_queue_size size) t = do
      t1 ← ask (cli_set_job_result_queue_size size) (print (size_line size) t)
      t2 ← receive_data t1
      ok (print (10 ∷ []) t2)
    run_command (cli_exec_task taskid file groupid) t = do
      t1 ← ask (cli_exec_task taskid file groupid) (print submitted_line t)
      t2 ← receive_data (set_exec true t1)
      ok (print (10 ∷ []) (set_exec false t2))
    run_command unsupported t = ok (print unsupported_line t)
    run_command not_found t = ok (print_all not_found_lines t)

    -- What `cli_main` does with a line that is not "exit".
    unfoldable pub run_line : Bytes → Terminal → Run Terminal
    unfolding run_command parse_cli
    run_line [] t = ok t
    run_line (a ∷ str) t = do
      command ← parse_cli c.number c.block fuel ((a ∷ str) ++ (0 ∷ 0 ∷ c.stack))
      run_command command t

  -- What `cli_main` does when it is called for the first time.
  unfoldable pub open_interface : Terminal → Terminal
  open_interface t =
      if t.init_cli_interface
      then t
      else record (print_all banner_lines t) { init_cli_interface = true }

  -- `while(true)`; where `fgets` returns NULL the loop goes on.
  unfoldable pub prompt_loop : ℕ → Terminal → Run Terminal
  unfolding run_line cut_last open_interface strings_equal fgets
  prompt_loop zero t = out_of_fuel
  prompt_loop (suc n) t =
      let main : Terminal → Run Terminal = λ t1. prompt_loop n (open_interface t1) in
      elim t.input [
        | [] ↦ prompt_loop n (print prompt_line t)
        | line ∷ lines ↦ (do
          str ← cut_last (c_string (fgets line lines).0)
          let t1 = print prompt_line (record t { input = (fgets line lines).1 })
          elim (strings_equal str exit_word) [
            | true ↦ ok (print end_line t1)
            | false ↦ (do t2 ← run_line main str t1; prompt_loop n t2)
          ])
      ]

  unfoldable pub cli_main : ℕ → Terminal → Run Terminal
  unfolding prompt_loop open_interface
  cli_main rounds t = prompt_loop rounds (open_interface t)
