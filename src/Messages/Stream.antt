-- ===== src/Messages/Stream.antt =====
-- The loop of handleClientMessage, handleServerMessage and handleNetworkMessage on what `encode`
-- wrote: a stream of frames with one message each.
use pyramid.Prelude.{
  to_int, ℕ, zero, suc, ◌+◌, ◌<◌, ◌≤◌, ◌≡◌, refl, ap, ◌∙◌, fun_ext, true, false, some, List, [],
  ◌∷◌, ◌++◌, arith, length, length-append, append_assoc, All, pos, leb_ℤ, ltb_ℤ,
}
use pyramid.Wire.{Run, ok, ◌>>=◌, Bytes, htonl, advance}
use pyramid.Wire.Laws.{be32, bind_assoc, load32-be32, htonl-htonl, advance-append}
use pyramid.Tlv.{Tlv, is_plain}
use pyramid.Tlv.Frame.{tlv_bytes, frame}
use pyramid.Tlv.Decode.{decode-tlv_bytes}
use pyramid.Messages.{Progress, sub_int, tlv_loop, segment, segment_loop, handle_message}

-- A message as its sender means it: a type and characters.
pub record Message : Type 0 where
  pub type : ℕ
  pub chars : Bytes

-- A type whose value `decode` points at, and a length that a sender's buffer holds.
abbrev pub IsSendable : Message → Type 0
IsSendable m = (is_plain m.type ≡ true) × (length m.chars < 1024)

abbrev pub stream : List Message → Bytes
stream [] = []
stream (m ∷ ms) = frame (tlv_bytes m.type m.chars) ++ stream ms

-- The call of the handler that a message leads to, with what follows the value in memory.
abbrev pub received : Message → Bytes → Tlv
received m behind = record {
  type = m.type;
  length = length m.chars;
  value = some (m.chars ++ behind);
}

sub_int_pos : (a b c : ℕ) → a ≡ b + c → a < 2147483648 → sub_int (pos a) (pos b) ≡ ok (pos c)
unfolding sub_int
sub_int_pos a b c e h = ground arith

module _ {ℓ} {S : Type ℓ} (handle : Tlv → Progress S → Run (Progress S)) where
  -- Every message of the list is handled once, in order, with its value in place.
  abbrev pub deliver : List Message → Bytes → Progress S → Run (Progress S)
  deliver [] rest s = ok s
  deliver (m ∷ ms) rest s = do s' ← handle (received m (stream ms ++ rest)) s; deliver ms rest s'

  tlv_loop_one :
      (f : ℕ) (m : Message) (rest : Bytes) (s : Progress S)
      → IsSendable m
      → tlv_loop handle
          (suc (suc f))
          (pos (4 + length m.chars))
          (tlv_bytes m.type m.chars ++ rest)
          s
        ≡ (handle (received m rest) s >>= λ s'. ok (rest, s'))
  unfolding tlv_loop
  tlv_loop_one f m rest s (plain, short) =
      let n : ℕ = length m.chars in
      let more : leb_ℤ (pos (4 + n)) (pos 0) ≡ false = ground arith in
      let size : length (tlv_bytes m.type m.chars) ≡ n + 4 = omega arith in
      rw (
        more,
        decode-tlv_bytes m.type m.chars rest s.g_groups plain (omega arith),
        sub_int_pos (4 + n) (n + 4) 0 (omega arith) (omega arith),
        ← size,
        advance-append (tlv_bytes m.type m.chars) rest,
      )

  segment_one :
      (f : ℕ) (m : Message) (rest : Bytes) (s : Progress S)
      → IsSendable m
      → segment handle (suc (suc f)) (frame (tlv_bytes m.type m.chars) ++ rest) s
        ≡ (handle (received m rest) s >>= λ s'. ok (pos (8 + length m.chars), rest, s'))
  unfolding segment advance
  segment_one f m rest s (plain, short) =
      let n : ℕ = length m.chars in
      let body : Bytes = tlv_bytes m.type m.chars in
      let size : 4 + length body ≡ 8 + n = omega arith in
      let read : htonl (htonl (4 + length body)) ≡ 8 + n =
        htonl-htonl (4 + length body) (omega arith) ∙ size in
      let fits : to_int (8 + n) ≡ pos (8 + n) = ground arith in
      rw
        (
          load32-be32 (4 + length body) (body ++ rest),
          read,
          fits,
          sub_int_pos (8 + n) 4 (4 + n) (omega arith) (omega arith),
          tlv_loop_one f m rest s (plain, short),
        )
        (bind_assoc (handle (received m rest) s) _ _)

  segment_enough :
      (k : ℕ) (m : Message) (rest : Bytes) (s : Progress S)
      → 1 < k
      → IsSendable m
      → segment handle k (frame (tlv_bytes m.type m.chars) ++ rest) s
        ≡ (handle (received m rest) s >>= λ s'. ok (pos (8 + length m.chars), rest, s'))
  segment_enough (suc (suc f)) m rest s fuel h = segment_one f m rest s h
  segment_enough _ m rest s fuel h = absurd (omega arith)

  segment_loop_round :
      (k left : ℕ) (buf : Bytes) (s : Progress S)
      → 0 < left
      → segment_loop handle (suc k) (pos left) buf s ≡ (
          segment handle k buf s >>= λ x.
          sub_int (pos left) x.0 >>= λ l. segment_loop handle k l x.1 x.2)
  unfolding segment_loop
  segment_loop_round k left buf s h =
      let more : leb_ℤ (pos left) (pos 0) ≡ false = ground arith in rw more

  segment_loop_message :
      (k left after : ℕ) (m : Message) (rest : Bytes) (s : Progress S)
      → 1 < k
      → IsSendable m
      → left ≡ 8 + length m.chars + after
      → left < 2147483648
      → segment_loop handle (suc k) (pos left) (frame (tlv_bytes m.type m.chars) ++ rest) s
        ≡ (handle (received m rest) s >>= λ s'. segment_loop handle k (pos after) rest s')
  segment_loop_message k left after m rest s two h e fits =
      segment_loop_round k left _ s (omega arith)
      ∙ rw (segment_enough k m rest s two h) (
          bind_assoc (handle (received m rest) s) _ _
          ∙ rw (sub_int_pos left (8 + length m.chars) after e fits))

  segment_loop-stream :
      (f left : ℕ) (ms : List Message) (rest : Bytes) (s : Progress S)
      → All IsSendable ms
      → length ms < f
      → left ≡ length (stream ms)
      → left < 2147483648
      → segment_loop handle (suc f) (pos left) (stream ms ++ rest) s ≡ deliver ms rest s
  segment_loop-stream f left [] rest s sound fuel e fits = rw e (unfold segment_loop in refl)
  segment_loop-stream zero left (m ∷ ms) rest s sound fuel e fits = absurd (omega arith)
  segment_loop-stream (suc f) left (m ∷ ms) rest s (h, sound) fuel e fits =
      let after : ℕ = length (stream ms) in
      let size : left ≡ 8 + length m.chars + after =
        omega (arith, length-append (tlv_bytes m.type m.chars) (stream ms)) in
      rw (append_assoc (frame (tlv_bytes m.type m.chars)) (stream ms) rest) (
        segment_loop_message (suc f) left after m (stream ms ++ rest) s (omega arith) h size fits
        ∙ ap (λ k. handle (received m (stream ms ++ rest)) s >>= k)
            (fun_ext
              λ s'. segment_loop-stream f after ms rest s' sound (omega arith) refl (omega arith)))

  handle_message_whole :
      (k left size : ℕ) (b : Bytes) (s : Progress S)
      → size ≤ left
      → size < 2147483648
      → handle_message handle k (be32 size ++ b) (pos left) s ≡ (
          segment_loop handle k (pos left) (be32 size ++ b) (record s { done = false }) >>= λ s'.
          ok (s'.done, s'))
  unfolding handle_message
  handle_message_whole k left size b s h fits =
      let whole : ltb_ℤ (pos left) (to_int size) ≡ false = ground arith in
      rw (load32-be32 size b, htonl-htonl size (omega arith), whole)

  -- Where the first header announces more bytes than were received (and less than 2^31),
  -- `handle_message` returns `true` and
  -- calls no handler: what was received of the message is lost.
  pub handle_message_cut :
      (fuel left size : ℕ) (b : Bytes) (s : Progress S)
      → left < size
      → size < 2147483648
      → handle_message handle fuel (be32 size ++ b) (pos left) s ≡ ok (true, s)
  unfolding handle_message
  handle_message_cut k left size b s h fits =
      let cut : ltb_ℤ (pos left) (to_int size) ≡ true = ground arith in
      rw (load32-be32 size b, htonl-htonl size (omega arith), cut)

  -- On a stream of one or more messages with plain types, lengths below 1024 and together less than
  -- 2^31 bytes, and given more rounds than messages and one, `handle_message` is the handler called
  -- on every message, once and in order, and then the flag `done`; no fault comes from the loop.
  pub handle_message-stream :
      (f : ℕ) (m : Message) (ms : List Message) (rest : Bytes) (s : Progress S)
      → All IsSendable (m ∷ ms)
      → length ms + 1 < f
      → length (stream (m ∷ ms)) < 2147483648
      → handle_message handle (suc f) (stream (m ∷ ms) ++ rest) (pos (length (stream (m ∷ ms)))) s
        ≡ (deliver (m ∷ ms) rest (record s { done = false }) >>= λ s'. ok (s'.done, s'))
  unfolding handle_message
  handle_message-stream f m ms rest s sound fuel fits =
      let size : ℕ = 4 + length (tlv_bytes m.type m.chars) in
      let left : ℕ = length (stream (m ∷ ms)) in
      let b : Bytes = tlv_bytes m.type m.chars ++ (stream ms ++ rest) in
      let le : size ≤ left = omega (arith, length-append (tlv_bytes m.type m.chars) (stream ms)) in
      let s0 : Progress S = record s { done = false } in
      let split : stream (m ∷ ms) ++ rest ≡ be32 size ++ b =
        append_assoc (frame (tlv_bytes m.type m.chars)) (stream ms) rest in
      let loop = segment_loop-stream f left (m ∷ ms) rest s0 sound (omega arith) refl fits in
      rw (split, handle_message_whole (suc f) left size b s le (omega arith))
        (ap (λ r. r >>= λ s'. ok (s'.done, s')) (rw split at loop))
