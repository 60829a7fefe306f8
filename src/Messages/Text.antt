-- ===== src/Messages/Text.antt =====
-- What the handlers of the receive loops read as a C string: `receive_data` puts a NUL behind what
-- it received, and the next frame begins with the high byte of its length.
use pyramid.Prelude.{
  ℕ, suc, ◌+◌, ◌/◌, ◌%◌, ◌<◌, ◌≡◌, ap, ◌∙◌, false, none, some, List, [], ◌∷◌, ◌++◌, arith, length,
  append_assoc, append-nil, All, pos,
}
use pyramid.Wire.{Run, ok, fault, ◌>>=◌, Bytes, c_string}
use pyramid.Wire.Laws.{NulFree, c_string-append}
use pyramid.Tlv.{Tlv}
use pyramid.Messages.{Progress, handle_message}
use pyramid.Messages.Stream.{Message, IsSendable, stream, deliver, handle_message-stream}

-- A message whose characters make one C string.
abbrev pub IsText : Message → Type 0
IsText m = IsSendable m × NulFree m.chars

pub c_string-stream :
    (m : Message) (ms : List Message) (rest : Bytes)
    → NulFree m.chars
    → All IsSendable ms
    → c_string (m.chars ++ (stream ms ++ (0 ∷ rest))) ≡ m.chars
c_string-stream m [] rest free h = c_string-append m.chars rest free
c_string-stream m (n ∷ ms) rest free (h, hs) = rw zero_byte (c_string-append m.chars _ free)
  where
    zero_byte : (4 + suc (suc (suc (suc (length n.chars))))) / 16777216 % 256 ≡ 0
    zero_byte = omega arith

pub IsText-IsSendable : (ms : List Message) → All IsText ms → All IsSendable ms
IsText-IsSendable [] h = tt
IsText-IsSendable (m ∷ ms) h = (h.0.0, IsText-IsSendable ms h.1)

-- A handler that keeps the type and the C string of each message.
pub record_text : Tlv → Progress (List Message) → Run (Progress (List Message))
record_text tlv s = elim tlv.value [
  | none ↦ fault
  | some v ↦
      ok (record s { state = s.state ++ record { type = tlv.type; chars = c_string v } ∷ [] })
]

deliver-record_text :
    (ms : List Message) (rest : Bytes) (s : Progress (List Message))
    → All IsText ms
    → deliver record_text ms (0 ∷ rest) s ≡ ok (record s { state = s.state ++ ms })
unfolding record_text
deliver-record_text [] rest s h = rw append-nil
deliver-record_text (m ∷ ms) rest s ((send, free), h) =
    rw (c_string-stream m ms rest free (IsText-IsSendable ms h)) (
      deliver-record_text ms rest (record s { state = s.state ++ m ∷ [] }) h
      ∙ ap (λ l. ok (record s { state = l })) (append_assoc s.state (m ∷ []) ms))

-- The same from any state: the messages are put behind what the handler has.
pub handle_message-record_text :
    (f : ℕ) (m : Message) (ms : List Message) (rest : Bytes) (s : Progress (List Message))
    → All IsText (m ∷ ms)
    → length ms + 1 < f
    → length (stream (m ∷ ms)) < 2147483648
    → handle_message record_text
        (suc f)
        (stream (m ∷ ms) ++ (0 ∷ rest))
        (pos (length (stream (m ∷ ms))))
        s
      ≡ ok (false, record { g_groups = s.g_groups; done = false; state = s.state ++ (m ∷ ms) })
handle_message-record_text f m ms rest s h fuel fits =
    handle_message-stream record_text f m ms (0 ∷ rest) s (IsText-IsSendable (m ∷ ms) h) fuel fits
    ∙ ap (λ r. r >>= λ s'. ok (s'.done, s'))
        (deliver-record_text (m ∷ ms) rest (record s { done = false }) h)

-- A stream of one or more messages, each with NUL-free characters of a length below 1024, that is
-- received whole with a NUL behind it, reaches a handler that keeps what it sees as exactly the
-- types and C strings that were sent, in order: no value runs into the next message. The loop ends
-- without a fault, given more rounds than messages and one.
pub handle_message-text :
    (f : ℕ) (m : Message) (ms : List Message) (rest : Bytes) (g : List ℕ)
    → All IsText (m ∷ ms)
    → length ms + 1 < f
    → length (stream (m ∷ ms)) < 2147483648
    → handle_message record_text
        (suc f)
        (stream (m ∷ ms) ++ (0 ∷ rest))
        (pos (length (stream (m ∷ ms))))
        (record { g_groups = g; done = false; state = [] })
      ≡ ok (false, record { g_groups = g; done = false; state = m ∷ ms })
handle_message-text f m ms rest g h fuel fits =
    handle_message-record_text f m ms rest (record { g_groups = g; done = false; state = [] }) h
      fuel fits
