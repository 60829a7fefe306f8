-- ===== src/Messages/Reply.antt =====
-- The server's reply to a command as `handleNetworkMessage` of client/src/cli_commands.c shows it.
use pyramid.Prelude.{
  ℕ, suc, ◌+◌, ◌<◌, ◌≡◌, refl, ap, ◌∙◌, true, false, List, [], ◌∷◌, ◌++◌, arith, length,
  length-append, All, pos, append_assoc,
}
use pyramid.Wire.{ok, Bytes}
use pyramid.Tlv.{goodbye}
use pyramid.Tlv.Attribute.{good_bye}
use pyramid.Messages.{Progress}
use pyramid.Messages.Stream.{Message, IsSendable, stream, deliver, handle_message-stream}
use pyramid.Messages.Text.{IsText, c_string-stream}
use pyramid.Messages.Network.{
  Screen, prints, value_line, goodbye_line, print_value, handle_data, handle_network_message,
}

-- The message of GOOD_BYE.
abbrev pub farewell : Message
farewell = record { type = good_bye; chars = goodbye }

-- A text of a type whose value is printed.
abbrev pub IsShown : Message → Type 0
IsShown m = IsText m × (prints m.type ≡ true)

-- What is printed for them and for the GOOD_BYE behind them.
abbrev pub texts : List Message → List Bytes
texts [] = goodbye_line ∷ []
texts (m ∷ ms) = value_line m.chars ∷ texts ms

sendable : (ms : List Message) → All IsShown ms → All IsSendable (ms ++ farewell ∷ [])
sendable [] h = ((refl, omega arith), tt)
sendable (m ∷ ms) h = (h.0.0.0, sendable ms h.1)

deliver-handle_data :
    (ms : List Message) (rest : Bytes) (s : Progress Screen)
    → All IsShown ms
    → deliver handle_data (ms ++ farewell ∷ []) (0 ∷ rest) s
      ≡ ok (record s {
        done = true;
        state = record s.state { printed = s.state.printed ++ texts ms };
      })
unfolding handle_data print_value
deliver-handle_data [] rest s h = refl
deliver-handle_data (m ∷ ms) rest s (((send, free), shown), h) =
    rw (shown, c_string-stream m (ms ++ farewell ∷ []) rest free (sendable ms h))
      (deliver-handle_data ms rest
          (record s {
            done = false;
            state = record s.state { printed = s.state.printed ++ value_line m.chars ∷ [] };
          })
          h
        ∙ ap
            (λ (l : List Bytes).
              ok (record s { done = true; state = record s.state { printed = l } }))
            (append_assoc s.state.printed (value_line m.chars ∷ []) (texts ms)))

-- The reply to a command: texts to print and then GOOD_BYE.
abbrev pub reply : List Message → Bytes
reply ms = stream (ms ++ farewell ∷ [])

-- The reply, received whole with a NUL behind it, is printed text by text, and ends the command:
-- `handleNetworkMessage` returns `true`. Each text is a NUL-free string of less than 1024
-- characters, and the loop has more rounds than messages and one.
pub handle_network_message-reply :
    (f : ℕ) (ms : List Message) (rest : Bytes) (screen : Screen)
    → All IsShown ms
    → length ms + 1 < f
    → length (reply ms) < 2147483648
    → handle_network_message (suc f) (reply ms ++ (0 ∷ rest)) (pos (length (reply ms))) screen
      ≡ ok (true, record screen { printed = screen.printed ++ texts ms })
unfolding handle_network_message
handle_network_message-reply f [] rest screen h fuel fits =
    let s : Progress Screen = record { g_groups = []; done = false; state = screen } in
    rw
      (handle_message-stream handle_data f farewell [] (0 ∷ rest) s (sendable [] h) (omega arith)
        fits)
      refl
handle_network_message-reply f (m ∷ ms) rest screen h fuel fits =
    let s : Progress Screen = record { g_groups = []; done = false; state = screen } in
    let size : length (ms ++ farewell ∷ []) ≡ length ms + 1 = length-append ms (farewell ∷ []) in
    rw
      (
        handle_message-stream handle_data f m (ms ++ farewell ∷ []) (0 ∷ rest) s
            (sendable (m ∷ ms) h) (omega arith) fits,
        deliver-handle_data (m ∷ ms) rest s h,
      )
      refl
