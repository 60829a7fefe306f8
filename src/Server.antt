-- ===== src/Server.antt =====
-- The server process: what server/src/server.c and server/src/server_helper.c keep, and the calls
-- that they make of the system. `P` is the state of the thread pool, a copy of a library.
pub mod Display
pub mod Chunks
pub mod Buffer
pub mod Unchanged
pub mod Entries
pub mod Listing
pub mod Memberships
pub mod Answers
pub mod Dialogue
pub mod Composition
pub mod Replies
pub mod Command
pub mod Start
pub mod Events
pub mod Kept
pub mod Works
pub mod Sound
pub mod Loop
pub mod Reached
pub mod Main
use pyramid.Prelude.{
  ℕ, suc, ◌+◌, Bool, Option, none, some, List, [], ◌∷◌, ◌++◌, length, take, update, ℤ,
}
use pyramid.Wire.{Run, ok, exit, ◌>>=◌, Bytes}
use pyramid.Sending.{Socket, Outcome, returned, exited, sh_send_encoded_data}
use pyramid.Jobs.{Jobs}
use pyramid.Central.{Settings}

-- submit_job_t
pub record Work : Type 0 where
  pub task : ℤ
  pub cfd : ℕ
  pub group : ℤ
  pub input_file : Bytes

pub record Server (P : Type 0) : Type 0 where
  pub jobs : Jobs
  pub sockets : ℕ → Socket
  pub sh_job_id : ℕ
  pub settings : Settings
  pub fd_cli : ℕ
  pub g_thpool : P

-- `send` is given a descriptor, the number of the call for it, and the count of bytes. `getpeername`
-- gives an address and a port in network order. `number` is `atoi`, `strtol` and `atoll`. A work of
-- the pool holds the structure as it was when it was added. `stack` is what local arrays hold.
pub record System (P : Type 0) : Type 0 where
  pub send : ℕ → ℕ → ℕ → Option ℕ
  pub getpeername : ℕ → Option (ℕ × ℕ)
  pub malloc_group : (ℕ → Bool) → ℕ
  pub malloc_info : (ℕ → Bool) → ℕ
  pub malloc_cn : (ℕ → Bool) → ℕ
  pub malloc_jn : (ℕ → Bool) → ℕ
  pub number : Bytes → ℤ
  pub run_command : Bytes → Bool
  pub thpool_add_work : Work → P → P
  pub stack : Bytes

-- `snprintf(format_buffer, ONE_KB, ...)` of a text; its result is the text's length.
abbrev pub snprintf : Bytes → Bytes
snprintf line = take 1023 line ++ 0 ∷ []

module _ {P : Type 0} (sys : System P) (fuel : ℕ) where
  abbrev pub keep_socket : ℕ → Server P → Outcome → Run (Server P)
  keep_socket fd s (returned k) = ok (record s { sockets = update s.sockets fd k })
  keep_socket fd s (exited k) = exit

  -- `sh_send_encoded_data(fd, chars, type)`
  pub send_to : ℕ → Bytes → ℕ → Server P → Run (Server P)
  unfolding sh_send_encoded_data
  send_to fd chars type s = do
    o ← sh_send_encoded_data (sys.send fd) fuel chars type (s.sockets fd)
    keep_socket fd s o

  -- The calls of `sh_send_encoded_data` that the functions of jobs.c have made.
  pub send_parts : List (ℕ × Bytes × ℕ) → Server P → Run (Server P)
  unfolding send_to
  send_parts [] s = ok s
  send_parts (part ∷ parts) s = do
    s1 ← send_to part.0 (part.1 ++ 0 ∷ []) part.2 s
    send_parts parts s1

  -- A function of jobs.c. It reads no socket, so that its calls are made behind it.
  pub run_jobs : (Jobs → Run (Bool × Jobs)) → Server P → Run (Bool × Server P)
  unfolding send_parts
  run_jobs f s = do
    (result, j) ← f s.jobs
    s1 ← send_parts j.sent (record s { jobs = record j { sent = [] } })
    ok (result, s1)
