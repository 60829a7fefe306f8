-- ===== src/Cli/Dialogue.antt =====
-- Single steps of the loop of client/src/cli_commands.c: a line that is typed, the request that its
-- command sends, and the reply.
use pyramid.Prelude.{
  ℕ, suc, ◌+◌, ◌<◌, ◌≤◌, ◌≡◌, refl, sym, ap, ◌∙◌, Bool, true, false, Option, some, List, [], ◌∷◌,
  ◌++◌, arith, length, leb, ◌==◌, All, append-nil,
}
use pyramid.Wire.{Run, ok, ◌>>=◌, Bytes}
use pyramid.Wire.Laws.{NulFree}
use pyramid.Tlv.Attribute.{cli_data}
use pyramid.Messages.Stream.{Message}
use pyramid.Messages.Network.{Screen}
use pyramid.Messages.Reply.{IsShown, texts, reply, handle_network_message-reply}
use pyramid.Receive.{Received, bytes}
use pyramid.Sending.{Socket, Outcome}
use pyramid.Sending.Laws.{after_frame}
use pyramid.Sending.Cli.{request_cli_data-frame}
use pyramid.Cli.{
  Command, cli_print_multicast_groups, cli_print_clients, cli_logging_level, cli_help,
  cli_clear_screen, cli_set_repository_address, cli_set_job_timeout, cli_print_job_result,
  cli_print_job_details, cli_set_job_result_queue_size, cli_exec_task, unsupported, not_found,
}
use pyramid.Cli.Requests.{request}
use pyramid.Cli.Screens.{groups_line, clients_line, job_details_line, job_result_line, size_line}
use pyramid.Cli.Session.{
  Terminal, Console, print, cut_last, keep_sent, receive_reply, send_request, ask, receive_data,
  run_command,
}

pub cut_last-append : (xs : Bytes) (a : ℕ) → cut_last (xs ++ a ∷ []) ≡ ok xs
unfolding cut_last
cut_last-append [] a = refl
cut_last-append (x ∷ []) a = refl
cut_last-append (x ∷ y ∷ xs) a = rw (cut_last-append (y ∷ xs) a) refl

-- Does the command ask the server and wait for the end of the reply? `execute` does not wait: it
-- leaves the flag `exec` set.
abbrev pub asks_and_waits : Command → Bool
asks_and_waits cli_print_multicast_groups = true
asks_and_waits cli_print_clients = true
asks_and_waits (cli_logging_level level) = false
asks_and_waits cli_help = false
asks_and_waits cli_clear_screen = false
asks_and_waits (cli_set_repository_address ip path username pwd) = true
asks_and_waits (cli_set_job_timeout timeout) = true
asks_and_waits (cli_print_job_result job_id) = true
asks_and_waits (cli_print_job_details job_id) = true
asks_and_waits (cli_set_job_result_queue_size size) = true
asks_and_waits (cli_exec_task taskid file groupid) = false
asks_and_waits unsupported = false
asks_and_waits not_found = false

-- What such a command prints before it asks, and when `receive_data` returns.
abbrev pub before : Command → List Bytes
before cli_print_multicast_groups = groups_line ∷ []
before cli_print_clients = clients_line ∷ []
before (cli_print_job_result job_id) = job_result_line job_id ∷ []
before (cli_print_job_details job_id) = job_details_line job_id ∷ []
before (cli_set_job_result_queue_size size) = size_line size ∷ []
before _ = []

abbrev pub after : Command → List Bytes
after cli_print_multicast_groups = []
after cli_print_clients = []
after _ = (10 ∷ []) ∷ []

-- What the loop sees of a terminal where no task is awaited and the banner was printed.
abbrev pub at : Socket → List Bytes → List Bytes → List Received → Terminal
at k printed input incoming = record {
  socket = k;
  screen = record { exec = false; printed = printed };
  init_cli_interface = true;
  input = input;
  incoming = incoming;
}

-- The command asks with the string `d`, which stands with a NUL in an array; and the reply is some
-- texts and then GOOD_BYE, which one `recv` returns.
pub record IsAsking (cmd : Command) (d more : Bytes) : Type 0 where
  pub asks : request cmd ≡ some (ok (d ++ (0 ∷ more)))
  pub free : NulFree d
  pub low : 0 < length d
  pub high : length d ≤ 79

pub record IsReply (f : ℕ) (ms : List Message) : Type 0 where
  pub shown : All IsShown ms
  pub enough : length ms < f
  pub some_bytes : 0 < length (reply ms)
  pub small : length (reply ms) < 1024

module _ (c : Console) (f : ℕ) (takes : (k n : ℕ) → c.send k n ≡ some n) where
  abbrev fuel : ℕ
  fuel = suc (suc f)

  ask-frame :
      (cmd : Command) (d more : Bytes) (t : Terminal)
      → IsAsking cmd d more
      → ask c fuel cmd t ≡ ok (record t { socket = after_frame c.send cli_data d t.socket })
  unfolding ask send_request
  ask-frame cmd d more t a =
      ap (λ (r : Option (Run Bytes)). send_request c fuel r t) a.asks
      ∙ ap (λ (o : Run Outcome). o >>= keep_sent t)
          (request_cli_data-frame c.send f d more t.socket a.free a.low a.high
            (takes t.socket.calls (8 + length d)))

  receive_reply-reply :
      (ms : List Message) (rs : List Received) (s : Screen)
      → IsReply f ms
      → receive_reply c fuel (bytes (reply ms) ∷ rs) s
        ≡ ok (rs, record s { printed = s.printed ++ texts ms })
  unfolding receive_reply
  receive_reply-reply ms rs s r =
      let fits : leb 1024 (length (reply ms)) ≡ false = ground (arith, r.small) in
      let opened : (length (reply ms) == 0) ≡ false = ground (arith, r.some_bytes) in
      rw
        (
          fits,
          opened,
          handle_network_message-reply (suc f) ms c.stack s r.shown (omega (arith, r.enough))
              (omega (arith, r.small)),
        )
        refl

  module _ (main : Terminal → Run Terminal) where
    receive_data-reply :
        (ms : List Message) (k : Socket) (printed input : List Bytes) (rs : List Received)
        → IsReply f ms
        → receive_data c fuel main (at k printed input (bytes (reply ms) ∷ rs))
          ≡ main (at k (printed ++ texts ms) input rs)
    unfolding receive_data
    receive_data-reply ms k printed input rs r =
        rw (receive_reply-reply ms rs (record { exec = false; printed = printed }) r) refl

    asked :
        (cmd : Command) (d more : Bytes) (ms : List Message) (k : Socket)
        (printed input : List Bytes) (rs : List Received)
        → IsAsking cmd d more
        → IsReply f ms
        → (ask c fuel cmd (at k printed input (bytes (reply ms) ∷ rs)) >>= receive_data c fuel main)
          ≡ main (at (after_frame c.send cli_data d k) (printed ++ texts ms) input rs)
    asked cmd d more ms k printed input rs a r =
        rw (ask-frame cmd d more (at k printed input (bytes (reply ms) ∷ rs)) a)
          (receive_data-reply ms (after_frame c.send cli_data d k) printed input rs r)

    unprinted :
        {k : Socket} {input : List Bytes} {rs : List Received} {result : Run Terminal}
        (printed ts : List Bytes)
        → main (at k ((printed ++ []) ++ ts) input rs) ≡ result
        → main (at k (printed ++ ts) input rs) ≡ result
    unprinted printed ts e = rw (← append-nil printed) e

    -- The commands that print an empty line at their end.
    closed :
        (cmd : Command) (d more : Bytes) (ms : List Message) (k k2 : Socket)
        (printed input printed2 input2 : List Bytes) (rs rs2 : List Received)
        → IsAsking cmd d more
        → IsReply f ms
        → main (at (after_frame c.send cli_data d k) (printed ++ texts ms) input rs)
          ≡ ok (at k2 printed2 input2 rs2)
        → (do
          t1 ← ask c fuel cmd (at k printed input (bytes (reply ms) ∷ rs))
          t2 ← receive_data c fuel main t1
          ok (print (10 ∷ []) t2))
          ≡ ok (at k2 (printed2 ++ (10 ∷ []) ∷ []) input2 rs2)
    closed cmd d more ms k k2 printed input printed2 input2 rs rs2 a r e =
        rw
          (
            ask-frame cmd d more (at k printed input (bytes (reply ms) ∷ rs)) a,
            receive_data-reply ms (after_frame c.send cli_data d k) printed input rs r,
            e,
          )
          refl

    pub run_command-reply :
        (cmd : Command) (d more : Bytes) (ms : List Message) (k k2 : Socket)
        (printed input printed2 input2 : List Bytes) (rs rs2 : List Received)
        → asks_and_waits cmd ≡ true
        → IsAsking cmd d more
        → IsReply f ms
        → main (at (after_frame c.send cli_data d k) ((printed ++ before cmd) ++ texts ms) input rs)
          ≡ ok (at k2 printed2 input2 rs2)
        → run_command c fuel main cmd (at k printed input (bytes (reply ms) ∷ rs))
          ≡ ok (at k2 (printed2 ++ after cmd) input2 rs2)
    unfolding run_command
    run_command-reply cli_print_multicast_groups d more ms k k2 printed input printed2 input2 rs rs2
          w a r e =
        asked cli_print_multicast_groups d more ms k (printed ++ before cli_print_multicast_groups)
          input rs a r
        ∙ (e ∙ ap (λ (p : List Bytes). ok (at k2 p input2 rs2)) (sym (append-nil printed2)))
    run_command-reply cli_print_clients d more ms k k2 printed input printed2 input2 rs rs2 w a r
          e =
        asked cli_print_clients d more ms k (printed ++ before cli_print_clients) input rs a r
        ∙ (e ∙ ap (λ (p : List Bytes). ok (at k2 p input2 rs2)) (sym (append-nil printed2)))
    run_command-reply (cli_set_repository_address ip path username pwd) d more ms k k2 printed input
          printed2 input2 rs rs2 w a r e =
        closed (cli_set_repository_address ip path username pwd) d more ms k k2 printed input
          printed2 input2 rs rs2 a r (unprinted printed (texts ms) e)
    run_command-reply (cli_set_job_timeout timeout) d more ms k k2 printed input printed2 input2 rs
          rs2 w a r e =
        closed (cli_set_job_timeout timeout) d more ms k k2 printed input printed2 input2 rs rs2 a r
          (unprinted printed (texts ms) e)
    run_command-reply (cli_print_job_result job_id) d more ms k k2 printed input printed2 input2 rs
          rs2 w a r e =
        closed (cli_print_job_result job_id) d more ms k k2
          (printed ++ before (cli_print_job_result job_id)) input printed2 input2 rs rs2 a r e
    run_command-reply (cli_print_job_details job_id) d more ms k k2 printed input printed2 input2 rs
          rs2 w a r e =
        closed (cli_print_job_details job_id) d more ms k k2
          (printed ++ before (cli_print_job_details job_id)) input printed2 input2 rs rs2 a r e
    run_command-reply (cli_set_job_result_queue_size size) d more ms k k2 printed input printed2
          input2 rs rs2 w a r e =
        closed (cli_set_job_result_queue_size size) d more ms k k2
          (printed ++ before (cli_set_job_result_queue_size size)) input printed2 input2 rs rs2 a r
          e
    run_command-reply (cli_logging_level level) d more ms k k2 printed input printed2 input2 rs rs2
          w a r e =
        cc
    run_command-reply cli_help d more ms k k2 printed input printed2 input2 rs rs2 w a r e = cc
    run_command-reply cli_clear_screen d more ms k k2 printed input printed2 input2 rs rs2 w a r e =
        cc
    run_command-reply (cli_exec_task taskid file groupid) d more ms k k2 printed input printed2
          input2 rs rs2 w a r e =
        cc
    run_command-reply unsupported d more ms k k2 printed input printed2 input2 rs rs2 w a r e = cc
    run_command-reply not_found d more ms k k2 printed input printed2 input2 rs rs2 w a r e = cc
