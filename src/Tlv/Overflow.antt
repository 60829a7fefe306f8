-- ===== src/Tlv/Overflow.antt =====
-- The buffers of common/src/tlv.c hold 1024 bytes, and `encode` admits values of up to 1023.
use pyramid.Prelude.{
  ℕ, ◌+◌, ◌<◌, ◌≤◌, ◌≡◌, ap, ◌∙◌, [], ◌∷◌, ◌++◌, arith, length, length-append, append_assoc,
  append-nil, pos,
}
use pyramid.Wire.{fault, Bytes}
use pyramid.Wire.Laws.{be16, store-fault, fetch-append}
use pyramid.Tlv.{Buffer, start, put_chars, encode, encode_chars}
use pyramid.Tlv.Frame.{IsText, put_header-append, HasRoom}

put_chars-fault :
    (attr : ℕ) (header body gap d more : Bytes) (buf : Buffer)
    → length header ≡ 4
    → 4 ≤ length gap
    → length gap < 4 + length d
    → buf.payload ≡ header ++ (body ++ gap)
    → start buf ≡ 4 + length body
    → put_chars attr (d ++ more) (length d) buf ≡ fault
unfolding put_chars
put_chars-fault attr header body (a ∷ b ∷ c ∷ e ∷ gap) d more buf hl lo hi p s =
    let front : Bytes = header ++ body in
    let q : Bytes = front ++ (be16 attr ++ (be16 (length d) ++ gap)) in
    rw (
      put_header-append front a b c e gap attr (length d) {p = buf.payload} {n = start buf}
          (rw append_assoc p) (omega (arith, length-append header body)),
      fetch-append d more,
      store-fault q (start buf + 4) d
          (omega (
            arith,
            length-append header body,
            length-append front (be16 attr ++ (be16 (length d) ++ gap)),
          ))
          (λ nil. absurd (omega (arith, ap length nil))),
    )
put_chars-fault attr header body gap d more buf hl lo hi p s = absurd (omega arith)

-- A value that passes the length test and is longer than what is left of the buffer behind the
-- message header is written past the end of the buffer.
pub encode_overflows :
    (attr k : ℕ) {body : Bytes} (d more : Bytes) {buf : Buffer}
    → IsText attr
    → HasRoom buf body (4 + k) []
    → k < length d
    → length d < 1024
    → encode attr (d ++ more) (pos (length d)) buf ≡ fault
unfolding encode encode_chars
encode_overflows attr k {body} d more {buf} t room small high = ground (
  arith,
  put_chars-fault attr room.header body room.gap d more buf room.header_length
      (omega (arith, room.gap_length)) (omega (arith, room.gap_length))
      (room.contents ∙ simp append-nil) room.starts,
)
