-- ===== src/Tests/Loops.antt =====
-- The receiving and the sending loops at concrete messages.
use pyramid.Prelude.{
  ℕ, zero, suc, ◌≡◌, ◌≢◌, refl, true, false, Option, some, List, [], ◌∷◌, ◌++◌, arith, length, pos,
  replicate, length-replicate, inr, inl,
}
use pyramid.Wire.{ok, out_of_fuel, ◌>>=◌, Bytes}
use pyramid.Wire.Laws.{NulFree}
use pyramid.Tlv.Attribute.{cli_data, algo_max, string_data}
use pyramid.Messages.{Progress, handle_message}
use pyramid.Messages.Stream.{Message, stream, deliver, handle_message-stream}
use pyramid.Messages.Text.{record_text, handle_message-text}
use pyramid.Messages.Network.{Screen, value_line, goodbye_line, handle_network_message}
use pyramid.Messages.Reply.{reply, handle_network_message-reply}
use pyramid.Messages.Zero.{handle_message-replicate}
use pyramid.Sending.{Socket, returned, sh_send_encoded_data, send_data}
use pyramid.Sending.Laws.{after_frame, send_data-frame, send_data_stuck}

abbrev first : Message
first = record { type = algo_max; chars = b'4' ∷ b'2' ∷ [] }

abbrev second : Message
second = record { type = cli_data; chars = b'1' ∷ [] }

abbrev idle : Progress (List Message)
idle = record { g_groups = 0 ∷ 0 ∷ []; done = false; state = [] }

handle_message-text_example :
    handle_message record_text 4
      (stream (first ∷ second ∷ []) ++ (0 ∷ 7 ∷ []))
      (pos (length (stream (first ∷ second ∷ []))))
      idle
    ≡ ok (false, record idle { state = first ∷ second ∷ [] })
handle_message-text_example =
    handle_message-text 3 first (second ∷ []) (7 ∷ []) (0 ∷ 0 ∷ [])
      (
        ((refl, omega arith), (omega arith, (omega arith, tt))),
        (((refl, omega arith), (omega arith, tt)), tt),
      )
      (omega arith) (omega arith)

handle_message-stream_example :
    handle_message record_text 3
      (stream (first ∷ []) ++ (0 ∷ []))
      (pos (length (stream (first ∷ []))))
      idle
    ≡ (deliver record_text (first ∷ []) (0 ∷ []) idle >>= λ s'. ok (s'.done, s'))
handle_message-stream_example =
    handle_message-stream record_text 2 first [] (0 ∷ []) idle ((refl, omega arith), tt)
      (omega arith) (omega arith)

handle_message-replicate_example :
    handle_message record_text 9 (replicate 20 0) (pos 8) idle ≢ ok (false, idle)
handle_message-replicate_example =
    handle_message-replicate record_text 9 20 8 idle (false, idle) (omega arith) (omega arith)

-- A socket that takes all that it is offered.
abbrev takes_all : ℕ → ℕ → Option ℕ
takes_all k n = some n

abbrev unused : Socket
unused = record { calls = 0; out = [] }

send_data-frame_example :
    (sh_send_encoded_data takes_all 2 (b'4' ∷ b'2' ∷ 0 ∷ []) algo_max unused
      ≡ ok (returned (after_frame takes_all algo_max (b'4' ∷ b'2' ∷ []) unused)))
    × (send_data takes_all 2 (b'4' ∷ b'2' ∷ 0 ∷ []) algo_max unused
        ≡ ok (returned (after_frame takes_all algo_max (b'4' ∷ b'2' ∷ []) unused)))
send_data-frame_example =
    send_data-frame takes_all 0 algo_max (b'4' ∷ b'2' ∷ []) [] unused (inr (inr (inr refl)))
      (omega arith, (omega arith, tt)) (omega arith) (omega arith) refl

-- A string of ones.
ones : ℕ → Bytes
ones n = replicate n 1

length-ones : (n : ℕ) → length (ones n) ≡ n
unfolding ones
length-ones n = length-replicate n 1

ones-NulFree : (n : ℕ) → NulFree (ones n)
unfolding ones
ones-NulFree zero = tt
ones-NulFree (suc n) = (omega arith, ones-NulFree n)

abbrev long_string : Bytes
long_string = ones 1024 ++ (0 ∷ [])

send_data_stuck_example :
    (sh_send_encoded_data takes_all 7 long_string string_data unused ≡ out_of_fuel)
    × (send_data takes_all 7 long_string string_data unused ≡ out_of_fuel)
send_data_stuck_example =
    send_data_stuck takes_all 7 string_data (ones 1024) [] unused (inl refl) (ones-NulFree 1024)
      (omega (arith, length-ones 1024)) (omega (arith, length-ones 1024)) (λ k. refl)

abbrev screen : Screen
screen = record { exec = true; printed = [] }

handle_network_message-reply_example :
    handle_network_message 4
      (reply (second ∷ []) ++ (0 ∷ []))
      (pos (length (reply (second ∷ []))))
      screen
    ≡ ok (true, record screen { printed = value_line (b'1' ∷ []) ∷ goodbye_line ∷ [] })
handle_network_message-reply_example =
    handle_network_message-reply 3 (second ∷ []) [] screen
      (((((refl, omega arith), (omega arith, tt)), refl)), tt) (omega arith) (omega arith)
