-- ===== src/Cli/Requests.antt =====
-- `parse_cli` of client/src/cli_commands.c, and the strings by which its commands ask the server.
use pyramid.Prelude.{
  ℕ, ◌+◌, ◌&&◌, Option, none, some, List, [], ◌∷◌, ◌++◌, length, ◌==◌, if◌then◌else◌, ℤ, as_int,
}
use pyramid.Wire.{Run, ok, ◌>>=◌, Bytes, c_string, store}
use pyramid.Sending.{strlen, zeros}
use pyramid.Jobs.Assign.{decimal, show_int}
use pyramid.Cli.{
  cli_parse_line, trim, Command, cli_print_multicast_groups, cli_print_clients, cli_logging_level,
  cli_help, cli_clear_screen, cli_set_repository_address, cli_set_job_timeout, cli_print_job_result,
  cli_print_job_details, cli_set_job_result_queue_size, cli_exec_task, unsupported, not_found,
  strings_equal, has_prefix, word, get_algo_type,
}

-- The strings that the trimmed line is compared with.
abbrev show_multicast_groups : Bytes
show_multicast_groups =
    b's' ∷ b'h' ∷ b'o' ∷ b'w' ∷ 32 ∷ b'm' ∷ b'u' ∷ b'l' ∷ b't' ∷ b'i' ∷ b'c' ∷ b'a' ∷ b's' ∷ b't'
    ∷ 32 ∷ b'g' ∷ b'r' ∷ b'o' ∷ b'u' ∷ b'p' ∷ b's' ∷ 32 ∷ []

abbrev show_clients_all : Bytes
show_clients_all =
    b's' ∷ b'h' ∷ b'o' ∷ b'w' ∷ 32 ∷ b'c' ∷ b'l' ∷ b'i' ∷ b'e' ∷ b'n' ∷ b't' ∷ b's' ∷ 32 ∷ b'a'
    ∷ b'l' ∷ b'l' ∷ 32 ∷ []

abbrev logging_error : Bytes
logging_error =
    b'l' ∷ b'o' ∷ b'g' ∷ b'g' ∷ b'i' ∷ b'n' ∷ b'g' ∷ 32 ∷ b'l' ∷ b'e' ∷ b'v' ∷ b'e' ∷ b'l' ∷ 32
    ∷ b'e' ∷ b'r' ∷ b'r' ∷ b'o' ∷ b'r' ∷ 32 ∷ []

abbrev logging_info : Bytes
logging_info =
    b'l' ∷ b'o' ∷ b'g' ∷ b'g' ∷ b'i' ∷ b'n' ∷ b'g' ∷ 32 ∷ b'l' ∷ b'e' ∷ b'v' ∷ b'e' ∷ b'l' ∷ 32
    ∷ b'i' ∷ b'n' ∷ b'f' ∷ b'o' ∷ 32 ∷ []

abbrev logging_debug : Bytes
logging_debug =
    b'l' ∷ b'o' ∷ b'g' ∷ b'g' ∷ b'i' ∷ b'n' ∷ b'g' ∷ 32 ∷ b'l' ∷ b'e' ∷ b'v' ∷ b'e' ∷ b'l' ∷ 32
    ∷ b'd' ∷ b'e' ∷ b'b' ∷ b'u' ∷ b'g' ∷ 32 ∷ []

abbrev help : Bytes
help = b'h' ∷ b'e' ∷ b'l' ∷ b'p' ∷ 32 ∷ []

abbrev clear : Bytes
clear = b'c' ∷ b'l' ∷ b'e' ∷ b'a' ∷ b'r' ∷ 32 ∷ []

abbrev set_repository : Bytes
set_repository =
    b's' ∷ b'e' ∷ b't' ∷ 32 ∷ b'r' ∷ b'e' ∷ b'p' ∷ b'o' ∷ b's' ∷ b'i' ∷ b't' ∷ b'o' ∷ b'r' ∷ b'y'
    ∷ []

abbrev set_job_timeout : Bytes
set_job_timeout =
    b's' ∷ b'e' ∷ b't' ∷ 32 ∷ b'j' ∷ b'o' ∷ b'b' ∷ 32 ∷ b't' ∷ b'i' ∷ b'm' ∷ b'e' ∷ b'o' ∷ b'u'
    ∷ b't' ∷ []

abbrev show_job_result : Bytes
show_job_result =
    b's' ∷ b'h' ∷ b'o' ∷ b'w' ∷ 32 ∷ b'j' ∷ b'o' ∷ b'b' ∷ b'-' ∷ b'r' ∷ b'e' ∷ b's' ∷ b'u' ∷ b'l'
    ∷ b't' ∷ []

abbrev execute : Bytes
execute = b'e' ∷ b'x' ∷ b'e' ∷ b'c' ∷ b'u' ∷ b't' ∷ b'e' ∷ []

-- The branches of `parse_cli`, in order; `number` is `atoi` and `strtol`.
unfoldable pub command : (Bytes → ℤ) → Bytes → List Bytes → Command
unfolding strings_equal has_prefix get_algo_type
command number line words =
    let n = length words in
    if strings_equal line show_multicast_groups
    then cli_print_multicast_groups
    else if strings_equal line show_clients_all
    then cli_print_clients
    else if strings_equal line logging_error
    then cli_logging_level 8
    else if strings_equal line logging_info
    then cli_logging_level 9
    else if strings_equal line logging_debug
    then cli_logging_level 10
    else if strings_equal line help
    then cli_help
    else if strings_equal line clear
    then cli_clear_screen
    else if has_prefix set_repository line && n == 6
    then cli_set_repository_address (word words 2) (word words 3) (word words 4) (word words 5)
    else if has_prefix set_job_timeout line && n == 4
    then cli_set_job_timeout (number (word words 3))
    else if has_prefix show_job_result line && n == 3
    then cli_print_job_result (number (word words 2))
    else if has_prefix execute line && n == 4
    then elim (get_algo_type (word words 1)) [
      | none ↦ unsupported
      | some algo ↦ cli_exec_task algo (word words 2) (number (word words 3))
    ]
    else not_found

-- `block` is what `malloc(strlen(cli_string) + 1)` returns, with what its bytes hold.
unfoldable pub parse_cli : (Bytes → ℤ) → (ℕ → Bytes) → ℕ → Bytes → Run Command
unfolding command
parse_cli number block fuel cli_string = do
  n ← strlen cli_string
  words ← cli_parse_line fuel cli_string 8
  trimmed ← trim (block (n + 1)) words
  ok (command number (c_string trimmed) words)

-- `sprintf` into a zeroed array of `size` bytes.
unfoldable pub sprintf : ℕ → Bytes → Run Bytes
sprintf size text = store (zeros size) 0 (text ++ 0 ∷ [])

abbrev bar : Bytes → Bytes → Bytes
bar a b = a ++ (124 ∷ b)

-- The array that a command hands to `request_cli_data`; `none` where it asks nothing.
unfoldable pub request : Command → Option (Run Bytes)
unfolding sprintf as_int
request cli_print_multicast_groups = some (sprintf 80 (decimal 0))
request cli_print_clients = some (sprintf 80 (decimal 1))
request (cli_logging_level level) = some (sprintf 80 (decimal level))
request cli_help = none
request cli_clear_screen = none
request (cli_set_repository_address ip path username pwd) =
    some (sprintf 80 (bar (decimal 5) (bar ip (bar path (bar username pwd)))))
request (cli_set_job_timeout timeout) =
    some (sprintf 10 (bar (decimal 6) (show_int (as_int timeout))))
request (cli_print_job_result job_id) = some (sprintf 80 (bar (decimal 3) (show_int job_id)))
request (cli_print_job_details job_id) = some (sprintf 80 (bar (decimal 2) (show_int job_id)))
request (cli_set_job_result_queue_size size) =
    some (sprintf 80 (bar (decimal 7) (show_int (as_int size))))
request (cli_exec_task taskid file groupid) =
    some
      (sprintf 80 (bar (decimal 4) (bar (decimal taskid) (bar (show_int (as_int groupid)) file))))
request unsupported = none
request not_found = none
