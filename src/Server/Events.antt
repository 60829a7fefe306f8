-- ===== src/Server/Events.antt =====
-- server/src/server.c: what the server does with a message, and with what `recv` returns for a
-- client until it is disconnected.
use pyramid.Prelude.{ℕ, ◌/◌, Bool, true, Option, none, some, List, ◌==◌, if◌then◌else◌, ℤ}
use pyramid.Wire.{Run, ok, fault, ◌>>=◌, Bytes, c_string}
use pyramid.Tlv.{Tlv}
use pyramid.Tlv.Attribute.{join_group, string_data, cli_data, algo_max, algo_error}
use pyramid.Messages.{Progress, handle_message}
use pyramid.Receive.{Received, receive_data}
use pyramid.Registry.{
  Clients, server_get_client_info_head, server_add_one_client_fd, server_del_one_client_fd,
}
use pyramid.Jobs.Reassign.{reassign_job}
use pyramid.Jobs.Flow.{update_job_result}
use pyramid.Central.{text}
use pyramid.Server.{System, Server, run_jobs}
use pyramid.Server.Replies.{sh_send_job_result_to_cli}
use pyramid.Server.Command.{sh_parse_cmd}

abbrev pub put_clients : {P : Type 0} → Server P → Clients → Server P
put_clients s c = let j = s.jobs in record s { jobs = record j { clients = c } }

module _ {P : Type 0} (sys : System P) (fuel : ℕ) where
  -- JOIN_GROUP; where the address of the peer is not known nothing is done.
  unfoldable pub join : ℕ → Option (ℕ × ℕ) → ℕ → List ℕ → Server P → Run (Server P)
  join client_fd none n_gids g_groups s = ok s
  join client_fd (some sa) n_gids g_groups s = do
    (added, c) ←
        server_add_one_client_fd sys.malloc_group sys.malloc_info fuel
          (server_get_client_info_head client_fd) client_fd sa g_groups n_gids s.jobs.clients
    ok (put_clients s c)

  unfoldable pub reassign_lost : ℕ → Server P → Run (Bool × Server P)
  unfolding run_jobs
  reassign_lost client_fd s =
      run_jobs sys fuel
        (reassign_job (c_string s.settings.central_repo_ip) (c_string s.settings.job_directory)
          sys.malloc_cn fuel client_fd)
        s

  -- ALGO_MAX
  unfoldable pub finish_result : ℕ → Tlv → Bytes → Server P → Run (Server P)
  unfolding run_jobs text
  finish_result client_fd tlv value s = do
    chars ← text value
    (taken, s1) ←
        run_jobs sys fuel
          (update_job_result (c_string s.settings.central_repo_ip)
            (c_string s.settings.job_directory) fuel client_fd (sys.number chars))
          s
    sh_send_job_result_to_cli sys fuel client_fd tlv s1

  -- The cases with a value.
  unfoldable pub handle_value : ℕ → Tlv → Option Bytes → Server P → Run (Server P)
  unfolding finish_result sh_parse_cmd reassign_lost text
  handle_value client_fd tlv none s = fault
  handle_value client_fd tlv (some value) s =
      if tlv.type == string_data
      then (do printed ← text value; ok s)
      else if tlv.type == cli_data
      then sh_parse_cmd sys fuel client_fd value (record s { fd_cli = client_fd })
      else if tlv.type == algo_max
      then finish_result client_fd tlv value s
      else if tlv.type == algo_error
      then (do (done, s1) ← reassign_lost client_fd s; ok s1)
      else ok s

  abbrev pub has_case : ℕ → Bool
  has_case t =
      if t == string_data
      then true
      else if t == cli_data
      then true
      else if t == algo_max
      then true
      else t == algo_error

  unfoldable pub handle_data : ℕ → Tlv → Progress (Server P) → Run (Progress (Server P))
  unfolding join handle_value
  handle_data client_fd tlv p = do
    let s = p.state
    s1 ←
        if tlv.type == join_group
        then join client_fd (sys.getpeername client_fd) (tlv.length / 4) p.g_groups s
        else if has_case tlv.type
        then handle_value client_fd tlv tlv.value s
        else ok s
    ok (record p { state = s1 })

  pub handle_client_message : Bytes → ℤ → ℕ → Progress (Server P) → Run (Bool × Progress (Server P))
  unfolding handle_data
  handle_client_message buf recv_len client_fd p =
      handle_message (handle_data client_fd) fuel buf recv_len p

  -- The client is gone: its part is given to another one, and it leaves its groups and its bucket.
  -- `close` is a call of the system.
  unfoldable pub disconnect : ℕ → Server P → Run (Server P)
  unfolding reassign_lost
  disconnect client_fd s = do
    (done, s1) ← reassign_lost client_fd s
    (deleted, c) ←
        server_del_one_client_fd fuel (server_get_client_info_head client_fd) client_fd
          s1.jobs.clients
    ok (put_clients s1 c)

  -- `receive_data`, with the array's bytes `behind` what is received, and the byte before it `spare`.
  -- The result says whether the descriptor was closed.
  unfoldable pub receive_from :
      ℕ → Bytes → Bool → List Received → Progress (Server P) → Run (Bool × Progress (Server P))
  unfolding handle_data disconnect
  receive_from client_fd behind spare rs p = do
    (done, p1) ← receive_data (handle_data client_fd) fuel behind spare rs p
    s ← if done then disconnect client_fd p1.state else ok p1.state
    ok (done, record p1 { state = s })
