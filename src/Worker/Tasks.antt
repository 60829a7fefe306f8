-- ===== src/Worker/Tasks.antt =====
-- What a worker of client/src/client.c answers to a task.
use pyramid.Prelude.{
  ℕ, suc, ◌+◌, ◌<◌, ◌≤◌, ◌≡◌, ◌≢◌, inl, inr, refl, ap, ◌∙◌, true, false, Bool, Option, none, some,
  List, [], ◌∷◌, ◌++◌, arith, length, length-append, take, take-of_le, if◌then◌else◌, All,
  All-append, ℤ, pos, IsInt, as_int-IsInt, map,
}
use pyramid.Wire.{Run, ok, ◌>>=◌, Bytes}
use pyramid.Wire.Laws.{NulFree}
use pyramid.Tlv.{Tlv}
use pyramid.Tlv.Attribute.{algo_max}
use pyramid.Messages.{Progress}
use pyramid.Plugin.{ApiStatus, api_success, main_api}
use pyramid.Plugin.Largest.{IsOneOf, stored}
use pyramid.Sending.Laws.{after_frame, send_data-frame}
use pyramid.Jobs.Assign.{show_int}
use pyramid.Central.{text}
use pyramid.Server.Chunks.{text-append}
use pyramid.Server.Entries.{IsInt-magnitude, show_int-length, show_int-NulFree, NulFree-text}
use pyramid.Worker.{
  Worker, Host, Files, is_success, write_file, wget, output_prefix, client_get_file_from_ctrl_repo,
  call_main_api, client_open_file_to_read_max, send_chars, find_number, send_answer, run_max,
  exec_value, handle_exec_data, get_function_ptr,
}
use pyramid.Worker.Names.{IsName, client_generate_in_out_filenames_from_path-name}
use pyramid.Worker.Texts.{copied-text, write_file-read}

-- What the plug-in writes for a number.
abbrev pub number_line : ℤ → Bytes
number_line max = show_int max ++ (10 ∷ [])

abbrev pub output_name : Bytes → Bytes
output_name name = take 99 (output_prefix ++ name)

-- A number of the vector is an `int`.
pub stored-IsInt : (value : Bytes → ℕ) (ls : List Bytes) → All IsInt (map (stored value) ls)
stored-IsInt value [] = tt
stored-IsInt value (l ∷ ls) = (as_int-IsInt (pos (value l)), stored-IsInt value ls)

pub IsOneOf-All : (Q : ℤ → Type 0) (m : ℤ) (vs : List ℤ) → IsOneOf m vs → All Q vs → Q m
IsOneOf-All Q m [] one all = absurd cc
IsOneOf-All Q m (v ∷ vs) (inl e) (h, all) = rw e h
IsOneOf-All Q m (v ∷ vs) (inr one) (h, all) = IsOneOf-All Q m vs one all

-- What the repository gives.
module _ (host : Host) (f : ℕ) (w : Worker) (name path more : Bytes) (free : NulFree path) where
  abbrev fetched_then : Files
  fetched_then = host.system (wget path name) w.files

  client_get_file_from_ctrl_repo-ok :
      client_get_file_from_ctrl_repo host (suc (suc f)) (path ++ (0 ∷ more)) name w
      ≡ ok (record w { files = fetched_then })
  unfolding client_get_file_from_ctrl_repo
  client_get_file_from_ctrl_repo-ok = rw (text-append path more free) refl

  call_main_api-missing :
      fetched_then name ≡ none
      → call_main_api host (suc (suc f)) name (output_name name) (record w { files = fetched_then })
        ≡ (false, record w { files = fetched_then })
  unfolding call_main_api main_api write_file
  call_main_api-missing missing = rw missing refl

  -- Without a file there is no number.
  pub find_number-missing :
      fetched_then name ≡ none
      → find_number host (suc (suc f)) (path ++ (0 ∷ more)) (some (name, output_name name)) w
        ≡ ok (none, record w { files = fetched_then })
  unfolding find_number client_open_file_to_read_max
  find_number-missing missing =
      let finish : Bool × Worker → Run (Option Bytes × Worker) = λ r.
        ok (
          if r.0 then client_open_file_to_read_max (r.1.files (output_name name)) else none,
          r.1,
        ) in
      ap
        (λ (m : Run Worker).
          m >>= λ w1. finish (call_main_api host (suc (suc f)) name (output_name name) w1))
        client_get_file_from_ctrl_repo-ok
      ∙ ap finish (call_main_api-missing missing)

module _ (host : Host) (f : ℕ) (takes : (c n : ℕ) → host.send c n ≡ some n) where
  send_chars-frame :
      (d : Bytes) (w : Worker)
      → NulFree d
      → 0 < length d
      → length d ≤ 1016
      → send_chars host (suc (suc f)) d algo_max w
        ≡ ok (record w { socket = after_frame host.send algo_max d w.socket })
  unfolding send_chars
  send_chars-frame d w free low high =
      let sent =
        (send_data-frame host.send f algo_max d [] w.socket (inr (inr (inr refl))) free low high
          (takes w.socket.calls (8 + length d))).1 in
      rw sent refl

  -- The repository gives a file of which every line is converted, and its largest number is sent.
  module _ (w : Worker) (name path more : Bytes) (lines : List Bytes) (max : ℤ)
      (free : NulFree path) (fetched : host.system (wget path name) w.files name ≡ some lines)
      (found : main_api host.strtoumax true (some lines) 0 ≡ (api_success, some max))
      (writable : host.writable (output_name name) ≡ true) (size : IsInt max) where
    abbrev files_fetched : Files
    files_fetched = host.system (wget path name) w.files

    abbrev pub files_then : Files
    files_then = write_file (output_name name) (some max) files_fetched

    call_main_api-ok :
        call_main_api host
          (suc (suc f))
          name
          (output_name name)
          (record w { files = files_fetched })
        ≡ (true, record w { files = files_then })
    unfolding call_main_api
    call_main_api-ok =
        let result : main_api host.strtoumax (host.writable (output_name name)) (files_fetched name)
              0
            ≡ (api_success, some max) =
          rw (writable, fetched) found in
        ap
          (λ (r : ApiStatus × Option ℤ).
            (is_success r.0, record w { files = write_file (output_name name) r.1 files_fetched }))
          result

    pub find_number-found :
        find_number host (suc (suc f)) (path ++ (0 ∷ more)) (some (name, output_name name)) w
        ≡ ok (some (number_line max), record w { files = files_then })
    unfolding find_number client_open_file_to_read_max
    find_number-found =
        let whole : take 99 (number_line max) ≡ number_line max = take-of_le 99 (number_line max) (
          omega (
            arith,
            show_int-length max (IsInt-magnitude max size),
            length-append (show_int max) (10 ∷ []),
          )) in
        let finish : Bool × Worker → Run (Option Bytes × Worker) = λ r. ok (
          if r.0 then client_open_file_to_read_max (r.1.files (output_name name)) else none,
          r.1,
        ) in
        ap
          (λ (m : Run Worker).
            m >>= λ w1. finish (call_main_api host (suc (suc f)) name (output_name name) w1))
          (client_get_file_from_ctrl_repo-ok host f w name path more free)
        ∙ ap finish call_main_api-ok
        ∙ rw (write_file-read (output_name name) max files_fetched, whole) refl

    pub sends_number :
        send_answer host (suc (suc f)) (some (number_line max)) (record w { files = files_then })
        ≡ ok (record {
          files = files_then;
          socket = after_frame host.send algo_max (number_line max) w.socket;
        })
    unfolding send_answer
    sends_number =
        let free : NulFree (number_line max) =
          All-append (λ b. b ≢ 0) (show_int max) (10 ∷ []) (show_int-NulFree max)
            (NulFree-text (10 ∷ []) refl) in
        let more = length-append (show_int max) (10 ∷ []) in
        let (low, high) = show_int-length max (IsInt-magnitude max size) in
        send_chars-frame (number_line max) (record w { files = files_then }) free (omega arith)
          (omega arith)

-- The host's calls that load the plug-in succeed, and a task with a path behind a slash fits.
pub record IsTask (host : Host) (dir name : Bytes) : Type 0 where
  pub dlopen : host.dlopen ≡ true
  pub dlsym : host.dlsym ≡ true
  pub free : NulFree (dir ++ (47 ∷ name))
  pub is_name : IsName name
  pub short : length dir + length name < 99

module _ (host : Host) (f : ℕ) (dir name more : Bytes) (is : IsTask host dir name)
    (enough : length dir ≤ suc f) where
  abbrev path : Bytes
  path = dir ++ (47 ∷ name)

  -- The task is answered by what `send_answer` sends for what the file gives.
  run_max-IsTask :
      (b : Bytes) (w : Worker)
      → text b ≡ ok path
      → run_max host (suc (suc f)) (path ++ (0 ∷ more)) b w ≡ (
          find_number host (suc (suc f)) (path ++ (0 ∷ more)) (some (name, output_name name)) w
          >>= λ r. send_answer host (suc (suc f)) r.0 r.1)
  unfolding run_max get_function_ptr
  run_max-IsTask b w e =
      rw
        (
          is.dlopen,
          is.dlsym,
          e,
          client_generate_in_out_filenames_from_path-name (suc (suc f)) dir name is.is_name
              (omega arith) (omega (arith, is.short)),
        )
        refl

  pub handle_exec_data-IsTask :
      (tlv : Tlv) (p : Progress Worker)
      → tlv.type ≡ algo_max
      → tlv.value ≡ some (path ++ (0 ∷ more))
      → handle_exec_data host (suc (suc f)) tlv p ≡ (
          (find_number host
              (suc (suc f))
              (path ++ (0 ∷ more))
              (some (name, output_name name))
              p.state
            >>= λ r. send_answer host (suc (suc f)) r.0 r.1)
          >>= λ w. ok (record p { state = w }))
  unfolding handle_exec_data exec_value
  handle_exec_data-IsTask tlv p type value =
      let size = length-append dir (47 ∷ name) in
      let (b, made, e) = copied-text path more is.free (omega (arith, is.short)) in
      rw (value, made, type)
        (ap (λ (m : Run Worker). m >>= λ w. ok (record p { state = w }))
          (run_max-IsTask b p.state e))
