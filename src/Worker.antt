-- ===== src/Worker.antt =====
-- client/src/client.c: what a worker does with a task from the server. It fetches the file, calls
-- the plug-in of dynamic/src/api.c on it, and sends the number that the plug-in wrote. A file is
-- what `fgets` reads from it, line by line, or `none` where it cannot be opened.
pub mod Start
pub mod Joining
pub mod Texts
pub mod Names
pub mod Tasks
pub mod Answers
pub mod Round
use pyramid.Prelude.{
  ℕ, zero, suc, ◌+◌, ◌-◌, Bool, true, false, ◌&&◌, Option, none, some, List, [], ◌∷◌, ◌++◌, length,
  ltb, ◌==◌, if◌then◌else◌, take, ℤ, pos, replicate,
}
use pyramid.Wire.{Run, ok, fault, out_of_fuel, exit, ◌>>=◌, Bytes}
use pyramid.Tlv.{Tlv}
use pyramid.Tlv.Attribute.{algo_max, algo_error}
use pyramid.Messages.{Progress, handle_message}
use pyramid.Receive.{Received, receive_data}
use pyramid.Sending.{Socket, Outcome, returned, exited, send_data}
use pyramid.Plugin.{ApiStatus, api_success, api_invalid_input, api_invalid_id, main_api}
use pyramid.Strtok.{strtok_r}
use pyramid.Jobs.Assign.{show_int}
use pyramid.Cli.{strings_equal}
use pyramid.Central.{text}

abbrev pub Files : Type 0
Files = Bytes → Option (List Bytes)

pub record Worker : Type 0 where
  pub files : Files
  pub socket : Socket

-- What the worker uses of the system: `send`, the conversion of the plug-in, whether a file can be
-- opened for writing, what the shell's command does to the files, and whether `dlopen` and `dlsym`
-- succeed.
pub record Host : Type 0 where
  pub send : ℕ → ℕ → Option ℕ
  pub strtoumax : Bytes → Option ℕ
  pub writable : Bytes → Bool
  pub system : Bytes → Files → Files
  pub dlopen : Bool
  pub dlsym : Bool

-- `get_function_ptr` of common/src/dynamic_lib_interface.c
pub get_function_ptr : Bool → Bool → Run Bool
get_function_ptr opened found = if opened then (if found then ok true else exit) else exit

-- The characters that `strncpy(array, p, n)` copies.
pub first_chars : ℕ → Bytes → Run Bytes
first_chars zero p = ok []
first_chars (suc n) [] = fault
first_chars (suc n) (c ∷ p) =
    let rest = first_chars n p in if c == 0 then ok [] else (do r ← rest; ok (c ∷ r))

-- The array of 100 zeroed bytes that `strncpy` has filled: with 100 characters it holds no NUL.
unfoldable pub copied : Bytes → Run Bytes
unfolding first_chars
copied value = do chars ← first_chars 100 value; ok (take 100 (chars ++ replicate 100 0))

-- The loop of `get_filename_from_path`.
pub last_token : ℕ → Bytes → Bytes → Run Bytes
unfolding strtok_r
last_token zero filename save = out_of_fuel
last_token (suc fuel) filename save = elim (strtok_r 47 save) [
  | none ↦ ok filename
  | some t ↦ last_token fuel t.0 t.1
]

-- `none` is NULL.
pub get_filename_from_path : ℕ → Bytes → Run (Option Bytes)
unfolding last_token strtok_r
get_filename_from_path fuel path = elim (strtok_r 47 path) [
  | none ↦ ok none
  | some t ↦ (do name ← last_token fuel t.0 t.1; ok (some name))
]

abbrev pub output_prefix : Bytes
output_prefix = b'o' ∷ b'u' ∷ b't' ∷ b'p' ∷ b'u' ∷ b't' ∷ b'_' ∷ []

-- `strnlen(s, size)`
abbrev pub strnlen : Bytes → ℕ → ℕ
strnlen s size = length (take size s)

-- The strings in `in` and `out`, or `none` for FALSE. `snprintf` returns the length of the whole
-- text, and stores what the array has room for.
pub client_generate_in_out_filenames_from_path : ℕ → ℕ → Bytes → Run (Option (Bytes × Bytes))
unfolding get_filename_from_path
client_generate_in_out_filenames_from_path fuel size path = do
  found ← get_filename_from_path fuel path
  elim found [
    | none ↦ ok none
    | some name ↦
        let path_len = strnlen name size in
        let out_len = strnlen output_prefix size in
        ok (
          if length name == path_len + 0 && length (output_prefix ++ name) == path_len + out_len
          then some (take (size - 1) name, take (size - 1) (output_prefix ++ name))
          else none)
  ]

-- "wget http://%s -O %s"
pub wget : Bytes → Bytes → Bytes
wget cntrl_repo_path local_path = take 2047 (
    (b'w' ∷ b'g' ∷ b'e' ∷ b't' ∷ 32 ∷ b'h' ∷ b't' ∷ b't' ∷ b'p' ∷ b':' ∷ b'/' ∷ b'/' ∷ [])
    ++ (cntrl_repo_path ++ ((32 ∷ b'-' ∷ b'O' ∷ 32 ∷ []) ++ local_path)))

-- `none` for FALSE, or the string in `result`.
pub client_open_file_to_read_max : Option (List Bytes) → Option Bytes
client_open_file_to_read_max none = none
client_open_file_to_read_max (some []) = none
client_open_file_to_read_max (some (line ∷ lines)) = some (take 99 line)

-- "\nClientErrorType\n"
abbrev pub client_error_type : Bytes
client_error_type =
    10 ∷ b'C' ∷ b'l' ∷ b'i' ∷ b'e' ∷ b'n' ∷ b't' ∷ b'E' ∷ b'r' ∷ b'r' ∷ b'o' ∷ b'r' ∷ b'T' ∷ b'y'
    ∷ b'p' ∷ b'e' ∷ 10 ∷ []

-- The file of this name is the one that was written, where the plug-in has written one.
pub write_file : Bytes → Option ℤ → Files → Files
unfolding strings_equal show_int
write_file name none files = files
write_file name (some max) files =
    λ n. if strings_equal n name then some ((show_int max ++ (10 ∷ [])) ∷ []) else files n

abbrev pub is_success : ApiStatus → Bool
is_success api_success = true
is_success api_invalid_input = false
is_success api_invalid_id = false

abbrev pub keep : Worker → Outcome → Run Worker
keep w (returned k) = ok (record w { socket = k })
keep w (exited k) = exit

module _ (host : Host) (fuel : ℕ) where
  pub client_get_file_from_ctrl_repo : Bytes → Bytes → Worker → Run Worker
  unfolding wget text
  client_get_file_from_ctrl_repo cntrl_repo_path local_path w = do
    path ← text cntrl_repo_path
    ok (record w { files = host.system (wget path local_path) w.files })

  -- The plug-in on two file names.
  pub call_main_api : Bytes → Bytes → Worker → Bool × Worker
  unfolding main_api write_file
  call_main_api in_file out_file w =
      let result = main_api host.strtoumax (host.writable out_file) (w.files in_file) 0 in
      (is_success result.0, record w { files = write_file out_file result.1 w.files })

  pub send_chars : Bytes → ℕ → Worker → Run Worker
  unfolding send_data
  send_chars chars type w = do
    o ← send_data host.send fuel (chars ++ (0 ∷ [])) type w.socket
    keep w o

  -- The conditions of ALGO_MAX behind the file names, from left to right: the number, or `none`.
  pub find_number : Bytes → Option (Bytes × Bytes) → Worker → Run (Option Bytes × Worker)
  unfolding client_get_file_from_ctrl_repo call_main_api client_open_file_to_read_max
  find_number value none w = ok (none, w)
  find_number value (some names) w = do
    w1 ← client_get_file_from_ctrl_repo value names.0 w
    let (done, w2) = call_main_api names.0 names.1 w1
    ok (if done then client_open_file_to_read_max (w2.files names.1) else none, w2)

  pub send_answer : Option Bytes → Worker → Run Worker
  unfolding send_chars
  send_answer none w = send_chars client_error_type algo_error w
  send_answer (some number) w = send_chars number algo_max w

  pub run_max : Bytes → Bytes → Worker → Run Worker
  unfolding get_function_ptr client_generate_in_out_filenames_from_path find_number send_answer text
  run_max value buffer w = do
    _ ← get_function_ptr host.dlopen host.dlsym
    path ← text buffer
    names ← client_generate_in_out_filenames_from_path fuel 100 path
    (number, w1) ← find_number value names w
    send_answer number w1

  pub exec_value : Tlv → Option Bytes → Worker → Run Worker
  unfolding run_max copied
  exec_value tlv none w = fault
  exec_value tlv (some value) w = do
    buffer ← copied value
    if tlv.type == algo_max then run_max value buffer w else ok w

  pub handle_exec_data : Tlv → Progress Worker → Run (Progress Worker)
  unfolding exec_value
  handle_exec_data tlv p = do w ← exec_value tlv tlv.value p.state; ok (record p { state = w })

  -- `decode` is given NULL for the array of groups.
  pub handle_server_message : Bytes → ℤ → Worker → Run (Bool × Worker)
  unfolding handle_exec_data
  handle_server_message buf recv_len w = do
    (done, p) ←
        handle_message handle_exec_data fuel buf recv_len
          (record { g_groups = []; done = false; state = w })
    ok (done, p.state)

  -- The results of `recv`, with the array's bytes `behind` what is received, and the byte before it
  -- `spare`.
  pub receive_exec_request : Bytes → Bool → List Received → Worker → Run Worker
  unfolding handle_exec_data
  receive_exec_request behind spare rs w = do
    (done, p) ←
        receive_data handle_exec_data fuel behind spare rs
          (record { g_groups = []; done = false; state = w })
    ok p.state
