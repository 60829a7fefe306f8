-- ===== src/Tlv/Decode.antt =====
-- `decode` of common/src/tlv.c reads back what `encode` wrote.
use pyramid.Prelude.{
  ℕ, ◌+◌, ◌*◌, ◌/◌, ◌%◌, ◌<◌, ◌≡◌, refl, ap, ◌∙◌, true, none, some, List, [], ◌∷◌, ◌++◌, map, arith,
  length, length-append, append_assoc, pos,
}
use pyramid.Wire.{ok, Bytes, htons, word32, load16, load32, advance}
use pyramid.Wire.Laws.{be16}
use pyramid.Tlv.Attribute.{join_group}
use pyramid.Tlv.{
  Buffer, start, is_plain, decode, decode_value, decode_groups, encode, encode_join_group,
  put_groups, put_header, finish,
}
use pyramid.Tlv.Frame.{
  tlv_bytes, frame, encoded, store_at, put_header-append, finish-frame, HasRoom,
}

-- The header of a message gives its type and length, and the value stands behind it.
decode-header :
    (t n : ℕ) (p : Bytes) (g : List ℕ)
    → t < 65536
    → n < 65536
    → decode (be16 t ++ (be16 n ++ p)) g ≡ decode_value t n p g
unfolding decode load16 advance htons
decode-header t n p g ht hn = rw (swap t ht, swap n hn)
  where
    swap : (x : ℕ) → x < 65536 → htons ((x / 256) % 256 + 256 * (x % 256)) ≡ x
    swap x h = omega arith

-- `decode` of a message with a plain type and less than 65536 characters returns its type and
-- length and points at the value, with what follows it in memory; the group array is unchanged.
pub decode-tlv_bytes :
    (t : ℕ) (d rest : Bytes) (g : List ℕ)
    → is_plain t ≡ true
    → length d < 65536
    → decode (tlv_bytes t d ++ rest) g
      ≡ ok (record { type = t; length = length d; value = some (d ++ rest) }, g)
unfolding decode_value
decode-tlv_bytes t d rest g plain h =
    decode-header t (length d) (d ++ rest) g (ground arith) h ∙ rw plain

-- The four bytes that JOIN_GROUP carries for one group, and the array of groups as the encoder
-- finds it in memory.
abbrev pub group_bytes : List ℕ → Bytes
group_bytes [] = []
group_bytes (g ∷ gs) = be16 g ++ (0 ∷ 0 ∷ group_bytes gs)

abbrev pub words : List ℕ → Bytes
words [] = []
words (g ∷ gs) = word32 g ++ words gs

pub length-group_bytes : (gs : List ℕ) → length (group_bytes gs) ≡ 4 * length gs
length-group_bytes [] = refl
length-group_bytes (g ∷ gs) = omega (arith, length-group_bytes gs)

htons-word32 :
    (g : ℕ)
    → word32 (
        htons (
          g % 256
          + 256 * (g / 256 % 256)
          + 65536 * (g / 65536 % 256)
          + 16777216 * (g / 16777216 % 256)))
      ≡ be16 g ++ 0 ∷ 0 ∷ []
unfolding htons
htons-word32 g = ground arith

put_groups-append :
    (gs : List ℕ) (front old back more : Bytes) {p : Bytes} {n : ℕ}
    → p ≡ front ++ (old ++ back)
    → n ≡ length front
    → length old ≡ 4 * length gs
    → put_groups (length gs) (words gs ++ more) p n ≡ ok (front ++ (group_bytes gs ++ back))
unfolding put_groups load32 advance
put_groups-append [] front [] back more e en el = ap ok e
put_groups-append (g ∷ gs) front (a ∷ b ∷ c ∷ d ∷ old) back more e en el =
    rw
      (
        htons-word32 g,
        store_at front (a ∷ b ∷ c ∷ d ∷ []) (be16 g ++ 0 ∷ 0 ∷ []) (old ++ back) e en refl,
      )
      (put_groups-append gs (front ++ (be16 g ++ 0 ∷ 0 ∷ [])) old back more (simp append_assoc)
          (omega (arith, length-append front (be16 g ++ 0 ∷ 0 ∷ []))) (omega arith)
        ∙ ap ok (simp append_assoc))
put_groups-append _ front _ back more e en el = absurd (omega arith)

decode_groups-append :
    (gs front old back : List ℕ) (rest : Bytes) {p : List ℕ} {i : ℕ}
    → p ≡ front ++ (old ++ back)
    → i ≡ length front
    → length old ≡ length gs
    → decode_groups (length gs) (group_bytes gs ++ rest) i p
      ≡ ok (front ++ (map (λ g. g % 65536) gs ++ back))
unfolding decode_groups load32 advance
decode_groups-append [] front [] back rest e ei el = ap ok e
decode_groups-append (g ∷ gs) front (o ∷ old) back rest e ei el =
    let swap : htons (g / 256 % 256 + 256 * (g % 256) + 65536 * 0 + 16777216 * 0) ≡ g % 65536 =
      unfold htons in omega arith in
    rw (swap, store_at front (o ∷ []) ((g % 65536) ∷ []) (old ++ back) e ei refl)
      (decode_groups-append gs (front ++ (g % 65536) ∷ []) old back rest (simp append_assoc)
          (omega (arith, length-append front ((g % 65536) ∷ []))) (omega arith)
        ∙ ap ok (simp append_assoc))
decode_groups-append _ front _ back rest e ei el = absurd (omega arith)

put_groups_gap :
    (gs : List ℕ) (header body gap back more : Bytes) (buf : Buffer)
    → length header ≡ 4
    → length gap ≡ 4 + 4 * length gs
    → buf.payload ≡ header ++ (body ++ (gap ++ back))
    → start buf ≡ 4 + length body
    → 0 < length gs
    → length gs < 255
    → encode_join_group (words gs ++ more) (pos (length gs)) buf
      ≡ encoded
          (8 + length body + 4 * length gs)
          (frame (body ++ tlv_bytes join_group (group_bytes gs)) ++ back)
unfolding encode_join_group
put_groups_gap gs (h0 ∷ h1 ∷ h2 ∷ h3 ∷ []) body (o0 ∷ o1 ∷ o2 ∷ o3 ∷ old) back more buf hl gl e es
      low high =
    let front : Bytes = h0 ∷ h1 ∷ h2 ∷ h3 ∷ body in
    let n : ℕ = length gs in
    let sent : Bytes = tlv_bytes join_group (group_bytes gs) in
    let head : Bytes = be16 join_group ++ be16 (4 * n) in
    let headed : put_header buf.payload (start buf) join_group (4 * n)
        ≡ ok (front ++ (head ++ (old ++ back))) =
      put_header-append front o0 o1 o2 o3 (old ++ back) join_group (4 * n) e (omega arith) in
    let filled : put_groups n (words gs ++ more) (front ++ (head ++ (old ++ back))) (start buf + 4)
        ≡ ok ((front ++ head) ++ (group_bytes gs ++ back)) =
      put_groups-append gs (front ++ head) old back more (simp append_assoc)
        (omega (arith, length-append front head)) (omega arith) in
    let done : finish (start buf + 4 + 4 * n) ((front ++ head) ++ (group_bytes gs ++ back))
        ≡ encoded (start buf + 4 + 4 * n) (frame (body ++ sent) ++ back) =
      finish-frame h0 h1 h2 h3 (body ++ sent) back (rw (length-group_bytes gs) (simp append_assoc))
        (omega (arith, length-append body sent, length-group_bytes gs)) in
    ground (arith, headed, filled, done)
put_groups_gap gs _ body _ back more buf hl gl e es low high = absurd (omega arith)

-- On a buffer with room for it, `encode` of JOIN_GROUP with 1 to 254 groups appends one message
-- that holds each group in four bytes, the low 16 bits of its number in network order first and
-- then two zero bytes.
pub encode-join_group-append :
    {buf : Buffer} {body back : Bytes} (gs : List ℕ) (more : Bytes)
    → HasRoom buf body (4 + 4 * length gs) back
    → 0 < length gs
    → length gs < 255
    → encode join_group (words gs ++ more) (pos (length gs)) buf
      ≡ encoded
          (8 + length body + 4 * length gs)
          (frame (body ++ tlv_bytes join_group (group_bytes gs)) ++ back)
unfolding encode
encode-join_group-append {buf} {body} {back} gs more room low high =
    put_groups_gap gs room.header body room.gap back more buf room.header_length room.gap_length
      room.contents room.starts low high

-- `decode` of a JOIN_GROUP message of less than 16384 groups, with a group array that has a cell for
-- each, writes the group numbers, modulo 65536, to the start of the group
-- array, and leaves the rest of the array alone.
pub decode-join_group :
    (gs old back : List ℕ) (rest : Bytes)
    → length old ≡ length gs
    → length gs < 16384
    → decode (tlv_bytes join_group (group_bytes gs) ++ rest) (old ++ back)
      ≡ ok (
        record { type = join_group; length = 4 * length gs; value = none },
        map (λ g. g % 65536) gs ++ back,
      )
unfolding decode_value
decode-join_group gs old back rest el h =
    let n4 : length (group_bytes gs) ≡ 4 * length gs = length-group_bytes gs in
    let n : 4 * length gs / 4 ≡ length gs = omega arith in
    decode-header join_group (length (group_bytes gs)) (group_bytes gs ++ rest) (old ++ back)
      (omega arith) (omega arith)
    ∙ rw (n4, n, decode_groups-append gs [] old back rest refl refl el)
