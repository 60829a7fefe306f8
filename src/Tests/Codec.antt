-- ===== src/Tests/Codec.antt =====
-- Encoding and decoding at concrete messages.
use pyramid.Prelude.{◌≡◌, refl, none, some, [], ◌∷◌, ◌++◌, arith, pos, negsuc, inl, inr}
use pyramid.Wire.{ok, fault, Bytes}
use pyramid.Tlv.Attribute.{join_group, cli_data, algo_max, string_data}
use pyramid.Tlv.{Buffer, encode, decode}
use pyramid.Tlv.Frame.{tlv_bytes, frame, encoded, HasRoom, encode-append, encode_refuses}
use pyramid.Tlv.Decode.{
  words, group_bytes, decode-tlv_bytes, encode-join_group-append, decode-join_group,
}
use pyramid.Tlv.Overflow.{encode_overflows}

abbrev hi : Bytes
hi = b'h' ∷ b'i' ∷ []

abbrev small : Buffer
small = record { length = 0; payload = 0 ∷ 0 ∷ 0 ∷ 0 ∷ 0 ∷ 0 ∷ 0 ∷ 0 ∷ 0 ∷ 0 ∷ 0 ∷ [] }

small-HasRoom : HasRoom small [] 6 (0 ∷ [])
small-HasRoom = record {
  header = 0 ∷ 0 ∷ 0 ∷ 0 ∷ [];
  gap = 0 ∷ 0 ∷ 0 ∷ 0 ∷ 0 ∷ 0 ∷ [];
  header_length = refl;
  gap_length = refl;
  contents = refl;
  starts = refl;
}

encode-append_example :
    encode cli_data (hi ++ []) (pos 2) small ≡ encoded 10 (frame (tlv_bytes cli_data hi) ++ 0 ∷ [])
encode-append_example =
    encode-append hi [] small-HasRoom cli_data (inr (inl refl)) (omega arith) (omega arith)

-- The bytes on the wire.
frame_bytes : frame (tlv_bytes cli_data hi) ≡ 0 ∷ 0 ∷ 0 ∷ 10 ∷ 0 ∷ 5 ∷ 0 ∷ 2 ∷ b'h' ∷ b'i' ∷ []
frame_bytes = refl

abbrev medium : Buffer
medium = record {
  length = 0;
  payload = 0 ∷ 0 ∷ 0 ∷ 0 ∷ 0 ∷ 0 ∷ 0 ∷ 0 ∷ 0 ∷ 0 ∷ 0 ∷ 0 ∷ 0 ∷ 0 ∷ 0 ∷ [];
}

medium-HasRoom : HasRoom medium [] 11 []
medium-HasRoom = record {
  header = 0 ∷ 0 ∷ 0 ∷ 0 ∷ [];
  gap = 0 ∷ 0 ∷ 0 ∷ 0 ∷ 0 ∷ 0 ∷ 0 ∷ 0 ∷ 0 ∷ 0 ∷ 0 ∷ [];
  header_length = refl;
  gap_length = refl;
  contents = refl;
  starts = refl;
}

encode_refuses_example :
    encode string_data hi (negsuc 0) small ≡ ok (0, record small { length = 4 })
encode_refuses_example = encode_refuses string_data hi (negsuc 0) small (inl (inl refl, inl refl))

abbrev tight : Buffer
tight = record { length = 0; payload = 0 ∷ 0 ∷ 0 ∷ 0 ∷ 0 ∷ 0 ∷ 0 ∷ 0 ∷ 0 ∷ 0 ∷ [] }

tight-HasRoom : HasRoom tight [] 6 []
tight-HasRoom = record {
  header = 0 ∷ 0 ∷ 0 ∷ 0 ∷ [];
  gap = 0 ∷ 0 ∷ 0 ∷ 0 ∷ 0 ∷ 0 ∷ [];
  header_length = refl;
  gap_length = refl;
  contents = refl;
  starts = refl;
}

-- Six bytes are free behind the frame header, and the message needs seven.
encode_overflows_example : encode algo_max (hi ++ b'!' ∷ []) (pos 3) tight ≡ fault
encode_overflows_example =
    encode_overflows algo_max 2 (hi ++ b'!' ∷ []) [] (inr (inr (inr refl))) tight-HasRoom
      (omega arith) (omega arith)

decode-tlv_bytes_example :
    decode (tlv_bytes cli_data hi ++ 0 ∷ []) []
    ≡ ok (record { type = cli_data; length = 2; value = some (hi ++ 0 ∷ []) }, [])
decode-tlv_bytes_example = decode-tlv_bytes cli_data hi (0 ∷ []) [] refl (omega arith)

abbrev twelve : Buffer
twelve = record { length = 0; payload = 0 ∷ 0 ∷ 0 ∷ 0 ∷ 0 ∷ 0 ∷ 0 ∷ 0 ∷ 0 ∷ 0 ∷ 0 ∷ 0 ∷ [] }

twelve-HasRoom : HasRoom twelve [] 8 []
twelve-HasRoom = record {
  header = 0 ∷ 0 ∷ 0 ∷ 0 ∷ [];
  gap = 0 ∷ 0 ∷ 0 ∷ 0 ∷ 0 ∷ 0 ∷ 0 ∷ 0 ∷ [];
  header_length = refl;
  gap_length = refl;
  contents = refl;
  starts = refl;
}

encode-join_group-append_example :
    encode join_group (words (70000 ∷ []) ++ []) (pos 1) twelve
    ≡ encoded 12 (frame (tlv_bytes join_group (group_bytes (70000 ∷ []))) ++ [])
encode-join_group-append_example =
    encode-join_group-append (70000 ∷ []) [] twelve-HasRoom (omega arith) (omega arith)

-- Group 70000 arrives as 4464.
decode-join_group_example :
    decode (tlv_bytes join_group (group_bytes (12 ∷ 70000 ∷ [])) ++ []) (0 ∷ 0 ∷ 9 ∷ [])
    ≡ ok (record { type = join_group; length = 8; value = none }, 12 ∷ 4464 ∷ 9 ∷ [])
decode-join_group_example =
    decode-join_group (12 ∷ 70000 ∷ []) (0 ∷ 0 ∷ []) (9 ∷ []) [] refl (omega arith)
