-- ===== src/Server/Composition.antt =====
-- A new size of the job queue, from the request of the command line to what it shows.
use pyramid.Prelude.{
  ℕ, suc, ◌+◌, ◌-◌, ◌<◌, ◌≤◌, ◌≡◌, refl, sym, ap, ◌∙◌, true, some, [], ◌∷◌, ◌++◌, arith, length,
  length-append, IsInt, as_int-of_IsInt, append_assoc, append-nil, ℤ, pos, update, subst,
}
use pyramid.Wire.{ok, Bytes}
use pyramid.Wire.Laws.{store-append}
use pyramid.Tlv.{goodbye}
use pyramid.Tlv.Attribute.{cli_data, good_bye}
use pyramid.Tlv.Frame.{frame, tlv_bytes}
use pyramid.Messages.Stream.{Message}
use pyramid.Messages.Reply.{reply, handle_network_message-reply}
use pyramid.Messages.Network.{Screen, value_line, goodbye_line, handle_network_message}
use pyramid.Sending.{Socket, zeros}
use pyramid.Sending.Laws.{zeros-add, length-zeros, after_frame}
use pyramid.Jobs.Assign.{decimal, digits, show_int}
use pyramid.Cli.{cli_set_job_result_queue_size}
use pyramid.Cli.Requests.{request, sprintf}
use pyramid.Server.{System, Server}
use pyramid.Server.Command.{sh_parse_cmd}
use pyramid.Server.Chunks.{put_socket}
use pyramid.Server.Entries.{IsInt-magnitude, magnitude, show_int-length}
use pyramid.Server.Answers.{after_goodbye}
use pyramid.Server.Dialogue.{
  queue_line, queue_line-fits, set_queue, sh_parse_cmd-set_job_queue_size,
}

sprintf-fits :
    (n : ℕ) (p : Bytes) → length p < n → sprintf n p ≡ ok (p ++ (0 ∷ zeros (n - (length p + 1))))
unfolding sprintf
sprintf-fits n p h =
    let size : length (p ++ (0 ∷ [])) ≡ length p + 1 = length-append p (0 ∷ []) in
    let back : ℕ = n - (length p + 1) in
    let cut : zeros n ≡ zeros (length p + 1) ++ zeros back =
      (let e : n ≡ (length p + 1) + back = omega arith in ap zeros e)
      ∙ zeros-add (length p + 1) back in
    rw cut (
      store-append [] (zeros (length p + 1)) (p ++ (0 ∷ [])) (zeros back)
        (size ∙ sym (length-zeros (length p + 1)))
      ∙ ap ok (append_assoc p (0 ∷ []) (zeros back)))

decimal_7 : decimal 7 ≡ b'7' ∷ []
unfolding decimal digits
decimal_7 = refl

-- The array with the request: "7", a bar, the number and NULs.
abbrev asked : ℤ → Bytes
asked size = (b'7' ∷ []) ++ (124 ∷ show_int size)

abbrev padding : ℤ → Bytes
padding size = zeros (80 - (length (asked size) + 1))

request-set_job_queue_size :
    (size : ℤ)
    → IsInt size
    → request (cli_set_job_result_queue_size size) ≡ some (ok (asked size ++ (0 ∷ padding size)))
unfolding request
request-set_job_queue_size size h =
    rw (as_int-of_IsInt size h, decimal_7)
      (ap some (
        sprintf-fits 80 (asked size)
          (omega (arith, show_int-length size (IsInt-magnitude size h)))))

module _ {P : Type 0} (sys : System P) (f fd : ℕ)
    (takes : (c n : ℕ) → sys.send fd c n ≡ some n) where
  -- What the command line shows when the socket had been given nothing before.
  shown :
      (size : ℤ) (calls : ℕ) (rest : Bytes) (screen : Screen)
      → magnitude size < 18446744073709551616
      → (let out =
            (after_goodbye (sys.send fd) (
              after_frame
                (sys.send fd)
                cli_data
                (queue_line size)
                (record { calls = calls; out = [] }))).out in
          handle_network_message 4 (out ++ (0 ∷ rest)) (pos (length out)) screen
          ≡ ok (
            true,
            record screen {
              printed = screen.printed ++ (value_line (queue_line size) ∷ goodbye_line ∷ []);
            },
          ))
  shown size calls rest screen h =
      let (free, low, high) = queue_line-fits size h in
      let m : Message = record { type = cli_data; chars = queue_line size } in
      let bye : Bytes = frame (tlv_bytes good_bye goodbye) in
      let whole : reply (m ∷ []) ≡ frame (tlv_bytes cli_data (queue_line size)) ++ bye =
        ap (λ (g : Bytes). frame (tlv_bytes cli_data (queue_line size)) ++ g) (append-nil bye) in
      let size_of = length-append (queue_line size) (bye ++ []) in
      subst
        (λ (o : Bytes).
          handle_network_message 4 (o ++ (0 ∷ rest)) (pos (length o)) screen
          ≡ ok (
            true,
            record screen {
              printed = screen.printed ++ (value_line (queue_line size) ∷ goodbye_line ∷ []);
            },
          ))
        whole
        (handle_network_message-reply 3 (m ∷ []) rest screen
          ((((refl, omega arith), free), refl), tt) (omega arith)
          (omega (arith, size_of, length-append goodbye [])))

  -- `cli_set_job_result_queue_size`, which no line of the terminal calls, asks, `sh_parse_cmd` serves
  -- it and stores the size, and what it sends makes `handleNetworkMessage` print one line, with the
  -- new size, and that of GOOD_BYE, and end the command. The size is an `int`, the number is read back
  -- as it was printed, the local array has 1024 bytes, `send` takes every frame whole, and the socket
  -- had been given nothing before.
  pub set_job_queue_size-served :
      (size : ℤ) (calls : ℕ) (rest : Bytes) (screen : Screen) (s : Server P)
      → IsInt size
      → 1024 ≤ length sys.stack
      → sys.number (b'7' ∷ []) ≡ pos 7
      → sys.number (show_int size) ≡ size
      → s.sockets fd ≡ record { calls = calls; out = [] }
      → (asking : Bytes) × (s' : Server P) × (request (cli_set_job_result_queue_size size)
          ≡ some (ok asking))
        × (sh_parse_cmd sys (suc (suc f)) fd asking s ≡ ok s')
        × (s'.settings.job_queue_size ≡ size)
        × (handle_network_message 4
              ((s'.sockets fd).out ++ (0 ∷ rest))
              (pos (length (s'.sockets fd).out))
              screen
            ≡ ok (
              true,
              record screen {
                printed = screen.printed ++ (value_line (queue_line size) ∷ goodbye_line ∷ []);
              },
            ))
  set_job_queue_size-served size calls rest screen s h room seven same fresh =
      let k : Socket =
        after_goodbye (sys.send fd)
          (after_frame (sys.send fd) cli_data (queue_line size) (s.sockets fd)) in
      let there : update s.sockets fd k fd ≡ k = ground arith in
      let line = shown size calls rest screen (IsInt-magnitude size h) in
      (
        asked size ++ (0 ∷ padding size),
        put_socket fd (set_queue sys f fd takes size s) k,
        request-set_job_queue_size size h,
        sh_parse_cmd-set_job_queue_size sys f fd takes size (padding size) s h room seven same,
        refl,
        rw (there, fresh) line,
      )
