-- ===== src/Tlv/Frame.antt =====
-- What `encode` of common/src/tlv.c leaves in the buffer, byte by byte.
use pyramid.Prelude.{
  leb_ℤ, ltb_ℤ, inl, inr, pos, negsuc, refl, ℕ, ◌+◌, ◌<◌, ◌≡◌, ◌⊎◌, refl, sym, ap, ◌∙◌, true, [],
  ◌∷◌, ◌++◌, arith, length, length-append, append_assoc, ℤ, pos,
}
use pyramid.Wire.{Run, ok, Bytes, store}
use pyramid.Wire.Laws.{be16, be32, word16-htons, word32-htonl, store-append, fetch-append}
use pyramid.Tlv.Attribute.{string_data, cli_data, algo_sort, algo_max, good_bye, join_group}
use pyramid.Tlv.{
  out_of_range, encode, goodbye, Buffer, start, finish, put_header, put_chars, encode_chars,
}

-- The types whose value is the caller's characters.
abbrev pub IsText : ℕ → Type 0
IsText t = (t ≡ string_data) ⊎ (t ≡ cli_data) ⊎ (t ≡ algo_sort) ⊎ (t ≡ algo_max)

-- The bytes of one message, and of a frame that holds some.
abbrev pub tlv_bytes : ℕ → Bytes → Bytes
tlv_bytes attr d = be16 attr ++ (be16 (length d) ++ d)

abbrev pub frame : Bytes → Bytes
frame body = be32 (4 + length body) ++ body

-- A successful result of `encode`.
abbrev pub encoded : ℕ → Bytes → Run (ℕ × Buffer)
encoded n p = ok (n, record { length = n; payload = p })

pub store_at :
    (front old new back : Bytes) {p : Bytes} {n : ℕ}
    → p ≡ front ++ (old ++ back)
    → n ≡ length front
    → length new ≡ length old
    → store p n new ≡ ok (front ++ (new ++ back))
store_at front old new back e en el = rw (e, en) (store-append front old new back el)

pub put_header-append :
    (front : Bytes) (a b c d : ℕ) (back : Bytes) (attr len : ℕ) {p : Bytes} {n : ℕ}
    → p ≡ front ++ (a ∷ b ∷ c ∷ d ∷ back)
    → n ≡ length front
    → put_header p n attr len ≡ ok (front ++ (be16 attr ++ (be16 len ++ back)))
unfolding put_header
put_header-append front a b c d back attr len e en =
    rw
      (
        word16-htons attr,
        word16-htons len,
        store_at front (a ∷ b ∷ []) (be16 attr) (c ∷ d ∷ back) e en refl,
      )
      (store_at (front ++ be16 attr) (c ∷ d ∷ []) (be16 len) back (simp append_assoc)
          (omega (arith, length-append front (be16 attr), en)) refl
        ∙ ap ok (append_assoc front (be16 attr) _))

pub finish-frame :
    (h0 h1 h2 h3 : ℕ) (body back : Bytes) {p : Bytes} {n : ℕ}
    → p ≡ h0 ∷ h1 ∷ h2 ∷ h3 ∷ (body ++ back)
    → n ≡ 4 + length body
    → finish n p ≡ encoded n (frame body ++ back)
unfolding finish
finish-frame h0 h1 h2 h3 body back {p} {n} e en =
    rw (word32-htonl n, store_at [] (h0 ∷ h1 ∷ h2 ∷ h3 ∷ []) (be32 n) (body ++ back) e refl refl)
      (rw en refl)

put_chars-append :
    (attr h0 h1 h2 h3 : ℕ) (body : Bytes) (o0 o1 o2 o3 : ℕ) (d more old back : Bytes) (buf : Buffer)
    → buf.payload ≡ h0 ∷ h1 ∷ h2 ∷ h3 ∷ (body ++ (o0 ∷ o1 ∷ o2 ∷ o3 ∷ (old ++ back)))
    → start buf ≡ 4 + length body
    → length old ≡ length d
    → put_chars attr (d ++ more) (length d) buf
      ≡ encoded (8 + length body + length d) (frame (body ++ tlv_bytes attr d) ++ back)
unfolding put_chars
put_chars-append attr h0 h1 h2 h3 body o0 o1 o2 o3 d more old back buf e es el =
    let front : Bytes = h0 ∷ h1 ∷ h2 ∷ h3 ∷ body in
    let head : Bytes = be16 attr ++ be16 (length d) in
    rw
      (
        put_header-append front o0 o1 o2 o3 (old ++ back) attr (length d) {n = start buf} e
            (omega arith),
        fetch-append d more,
        store_at (front ++ head) old d back
            {p = front ++ (be16 attr ++ (be16 (length d) ++ (old ++ back)))} {n = start buf + 4}
            (simp append_assoc) (omega (arith, length-append front head)) (sym el),
      )
      (finish-frame h0 h1 h2 h3 (body ++ tlv_bytes attr d) back {n = start buf + 4 + length d}
          (simp append_assoc) (omega (arith, length-append body (tlv_bytes attr d)))
        ∙ ap (λ (n : ℕ). encoded n (frame (body ++ tlv_bytes attr d) ++ back)) (omega arith))

-- The buffer holds the messages `body`, has `n` bytes free behind them, and then `back`.
pub record HasRoom (buf : Buffer) (body : Bytes) (n : ℕ) (back : Bytes) : Type 0 where
  pub header : Bytes
  pub gap : Bytes
  pub header_length : length header ≡ 4
  pub gap_length : length gap ≡ n
  pub contents : buf.payload ≡ header ++ (body ++ (gap ++ back))
  pub starts : start buf ≡ 4 + length body

put_chars_gap :
    (attr : ℕ) (header body gap d more back : Bytes) (buf : Buffer)
    → length header ≡ 4
    → length gap ≡ 4 + length d
    → buf.payload ≡ header ++ (body ++ (gap ++ back))
    → start buf ≡ 4 + length body
    → put_chars attr (d ++ more) (length d) buf
      ≡ encoded (8 + length body + length d) (frame (body ++ tlv_bytes attr d) ++ back)
put_chars_gap attr (h0 ∷ h1 ∷ h2 ∷ h3 ∷ []) body (o0 ∷ o1 ∷ o2 ∷ o3 ∷ old) d more back buf hl gl e
      es =
    put_chars-append attr h0 h1 h2 h3 body o0 o1 o2 o3 d more old back buf e es (omega arith)
put_chars_gap attr _ body _ d more back buf hl gl e es = absurd (omega arith)

module _ {buf : Buffer} {body back : Bytes} (d more : Bytes)
    (room : HasRoom buf body (4 + length d) back) where
  encode_chars-append :
      (attr : ℕ)
      → 0 < length d
      → length d < 1024
      → encode_chars attr (d ++ more) (pos (length d)) buf
        ≡ encoded (8 + length body + length d) (frame (body ++ tlv_bytes attr d) ++ back)
  unfolding encode_chars
  encode_chars-append attr low high = ground (
    arith,
    put_chars_gap attr room.header body room.gap d more back buf room.header_length room.gap_length
        room.contents room.starts,
  )

  -- On a buffer with room for the message, `encode` of 1 to 1023 bytes of character data appends
  -- one message, written out as type, length and value in network order, updates the frame's
  -- length, and touches nothing behind.
  pub encode-append :
      (attr : ℕ)
      → IsText attr
      → 0 < length d
      → length d < 1024
      → encode attr (d ++ more) (pos (length d)) buf
        ≡ encoded (8 + length body + length d) (frame (body ++ tlv_bytes attr d) ++ back)
  unfolding encode
  encode-append attr t low high = ground (arith, encode_chars-append attr low high)

-- On a buffer with eleven bytes of room, `encode` of GOOD_BYE appends the seven letters of
-- "goodbye", whatever data it is given.
pub encode-goodbye-append :
    {buf : Buffer} {body back : Bytes} (any : Bytes) (len : ℤ)
    → HasRoom buf body 11 back
    → encode good_bye any len buf
      ≡ encoded (15 + length body) (frame (body ++ tlv_bytes good_bye goodbye) ++ back)
unfolding encode
encode-goodbye-append {body} {back} any len room =
    encode_chars-append goodbye [] room good_bye (omega arith) (omega arith)
    ∙ ap (λ (n : ℕ). encoded n (frame (body ++ tlv_bytes good_bye goodbye) ++ back)) (omega arith)

over : (most : ℕ) (n : ℤ) → ltb_ℤ (pos most) n ≡ true → out_of_range (most + 1) n ≡ true
over most (pos n) h = ground arith
over most (negsuc n) h = ground arith

-- The number is below 1 or above `most`.
abbrev pub IsBeyond : ℕ → ℤ → Type 0
IsBeyond most n = (leb_ℤ n (pos 0) ≡ true) ⊎ (ltb_ℤ (pos most) n ≡ true)

-- `encode` refuses character data of a length outside 1 to 1023, and groups whose number is not
-- from 1 to 254: the result is 0 and no byte changes.
pub encode_refuses :
    (attr : ℕ) (d : Bytes) (len : ℤ) (buf : Buffer)
    → (IsText attr × IsBeyond 1023 len) ⊎ ((attr ≡ join_group) × IsBeyond 254 len)
    → encode attr d len buf ≡ ok (0, record buf { length = start buf })
unfolding encode encode_chars
encode_refuses attr d len buf (inl (text, beyond)) =
    let out : out_of_range 1024 len ≡ true = elim beyond [
      | inl low ↦ rw low refl
      | inr high ↦ over 1023 len high
    ] in
    ground arith
encode_refuses attr d len buf (inr (joins, beyond)) =
    let out : out_of_range 255 len ≡ true = elim beyond [
      | inl low ↦ rw low refl
      | inr high ↦ over 254 len high
    ] in
    ground arith
