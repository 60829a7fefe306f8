-- ===== src/Tlv.antt =====
-- common/src/tlv.h and common/src/tlv.c: messages of type, length and value, framed by a four-byte
-- length. `encode` appends a message to a buffer, `decode` reads the one at a pointer.
pub mod Attribute
pub mod Frame
pub mod Decode
pub mod Overflow
use pyramid.Prelude.{
  ℕ, zero, suc, ◌+◌, ◌-◌, ◌*◌, ◌/◌, ◌%◌, Bool, ◌||◌, Option, none, some, List, [], ◌∷◌, ◌==◌,
  if◌then◌else◌, ℤ, pos, negsuc, pos_part, leb_ℤ,
}
use pyramid.Wire.{
  Run, ok, fault, ◌>>=◌, Bytes, htons, htonl, word16, word32, load16, load32, advance, fetch, store,
}
use pyramid.Tlv.Attribute.{
  join_group, good_bye, string_data, cli_data, algo_error, algo_sort, algo_max,
}

pub record Buffer : Type 0 where
  pub length : ℕ
  pub payload : Bytes

-- `value` is `none` where `decode` leaves the pointer unset.
pub record Tlv : Type 0 where
  pub type : ℕ
  pub length : ℕ
  pub value : Option Bytes

-- `if (buf->length == 0) buf->length = 4`
abbrev pub start : Buffer → ℕ
start buf = if buf.length == 0 then 4 else buf.length

-- `(length <= 0) || (length >= limit)`
abbrev pub out_of_range : ℕ → ℤ → Bool
out_of_range limit n = leb_ℤ n (pos 0) || leb_ℤ (pos limit) n

abbrev pub refuse : Buffer → Run (ℕ × Buffer)
refuse buf = ok (0, record buf { length = start buf })

-- `hdr->len = htonl(buf->length); return buf->length;`
pub finish : ℕ → Bytes → Run (ℕ × Buffer)
finish n payload = do
  p ← store payload 0 (word32 (htonl n))
  ok (n, record { length = n; payload = p })

-- The two halves of a message header at `curP`.
pub put_header : Bytes → ℕ → ℕ → ℕ → Run Bytes
put_header payload at attr len = do
  p ← store payload at (word16 (htons attr))
  store p (at + 2) (word16 (htons len))

put_chars : ℕ → Bytes → ℕ → Buffer → Run (ℕ × Buffer)
unfolding put_header finish
put_chars attr data_bytes n buf = do
  let at = start buf
  p ← put_header buf.payload at attr n
  chars ← fetch n data_bytes
  q ← store p (at + 4) chars
  finish (at + 4 + n) q

-- The body that the encoders of character data share.
encode_chars : ℕ → Bytes → ℤ → Buffer → Run (ℕ × Buffer)
unfolding put_chars
encode_chars attr chars len buf =
    if out_of_range 1024 len then refuse buf else put_chars attr chars (pos_part len) buf

encode_string_data : Bytes → ℤ → Buffer → Run (ℕ × Buffer)
unfolding encode_chars
encode_string_data = encode_chars string_data

encode_cli_data : Bytes → ℤ → Buffer → Run (ℕ × Buffer)
unfolding encode_chars
encode_cli_data = encode_chars cli_data

encode_algo_sort : Bytes → ℤ → Buffer → Run (ℕ × Buffer)
unfolding encode_chars
encode_algo_sort = encode_chars algo_sort

encode_algo_max : Bytes → ℤ → Buffer → Run (ℕ × Buffer)
unfolding encode_chars
encode_algo_max = encode_chars algo_max

-- "goodbye"
abbrev pub goodbye : Bytes
goodbye = b'g' ∷ b'o' ∷ b'o' ∷ b'd' ∷ b'b' ∷ b'y' ∷ b'e' ∷ []

encode_goodbye : Buffer → Run (ℕ × Buffer)
unfolding encode_chars
encode_goodbye = encode_chars good_bye goodbye (pos 7)

-- One round for each group: `*(uint32_t *)curP = htons(groups[i])`.
put_groups : ℕ → Bytes → Bytes → ℕ → Run Bytes
put_groups zero groups payload at = ok payload
put_groups (suc k) groups payload at = do
  g ← load32 groups
  p ← store payload at (word32 (htons g))
  rest ← advance 4 groups
  put_groups k rest p (at + 4)

encode_join_group : Bytes → ℤ → Buffer → Run (ℕ × Buffer)
unfolding put_groups put_header finish
encode_join_group groups numgroups buf = if out_of_range 255 numgroups then refuse buf else do
  let at = start buf
  let n = pos_part numgroups
  p ← put_header buf.payload at join_group (4 * n)
  q ← put_groups n groups p (at + 4)
  finish (at + 4 + 4 * n) q

-- `4*length` as the 16 bits that `htons` takes of it.
abbrev quadruple16 : ℤ → ℕ
quadruple16 (pos n) = (4 * n) % 65536
quadruple16 (negsuc n) = 65535 - (4 * n + 3) % 65536

-- One round for each word; the source reads `*error` in every round.
put_errors : ℕ → Bytes → Bytes → ℕ → Run Bytes
put_errors zero error payload at = ok payload
put_errors (suc k) error payload at = do
  e ← load32 error
  p ← store payload at (word32 (htonl e))
  put_errors k error p (at + 4)

encode_algo_error : Bytes → ℤ → Buffer → Run (ℕ × Buffer)
unfolding put_errors put_header finish
encode_algo_error error len buf = do
  let at = start buf
  let n = pos_part len
  p ← put_header buf.payload at algo_error (quadruple16 len)
  q ← put_errors n error p (at + 4)
  finish (at + 4 + 4 * n) q

-- `switch(attr)`; the value `attr` of the enumeration is its number.
unfoldable pub encode : ℕ → Bytes → ℤ → Buffer → Run (ℕ × Buffer)
unfolding encode_join_group encode_string_data encode_cli_data encode_goodbye encode_algo_sort
    encode_algo_max encode_algo_error
encode attr bytes len buf =
    if attr == join_group
    then encode_join_group bytes len buf
    else if attr == string_data
    then encode_string_data bytes len buf
    else if attr == cli_data
    then encode_cli_data bytes len buf
    else if attr == good_bye
    then encode_goodbye buf
    else if attr == algo_sort
    then encode_algo_sort bytes len buf
    else if attr == algo_max
    then encode_algo_max bytes len buf
    else if attr == algo_error
    then encode_algo_error bytes len buf
    else ok (0, buf)

-- `g_groups[i] = htons(*(uint32_t *)buffer)` for each group; a store behind the array faults, and
-- so does any store through the null pointer, which is the array with no cell.
decode_groups : ℕ → Bytes → ℕ → List ℕ → Run (List ℕ)
decode_groups zero buffer i g_groups = ok g_groups
decode_groups (suc k) buffer i g_groups = do
  w ← load32 buffer
  g ← store g_groups i (htons w ∷ [])
  rest ← advance 4 buffer
  decode_groups k rest (i + 1) g

abbrev pub is_plain : ℕ → Bool
is_plain t =
    t == string_data
    || t == cli_data
    || t == good_bye
    || t == algo_sort
    || t == algo_max
    || t == algo_error

-- The switch of `decode`. Its default branch reads two more bytes to print them.
decode_value : ℕ → ℕ → Bytes → List ℕ → Run (Tlv × List ℕ)
unfolding decode_groups
decode_value t len value g_groups =
    if is_plain t
    then ok (record { type = t; length = len; value = some value }, g_groups)
    else if t == join_group
    then (do
      g ← decode_groups (len / 4) value 0 g_groups
      ok (record { type = t; length = len; value = none }, g))
    else (do shown ← load16 value; ok (record { type = t; length = len; value = none }, g_groups))

-- `buflen` is left out: the source lowers it and never reads it.
unfoldable pub decode : Bytes → List ℕ → Run (Tlv × List ℕ)
unfolding decode_value
decode buffer g_groups = do
  t ← load16 buffer
  rest ← advance 2 buffer
  l ← load16 rest
  value ← advance 2 rest
  decode_value (htons t) (htons l) value g_groups
