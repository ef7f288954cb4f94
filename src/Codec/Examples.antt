-- ===== src/Codec/Examples.antt =====
-- Runs of the codec on the values of RedisCodecTest.cpp and others.
use smyte_db.Prelude.{ℕ, ◌<◌, ◌≡◌, refl, List, [], ◌∷◌, ◌++◌, some, true, arith, codes, All, Bool}
use smyte_db.Prelude.Int.{pos, negsuc}
use smyte_db.Codec.Buffers.{split_at}
use smyte_db.Codec.Buffers.Lists.{list_buffers, flat}
use smyte_db.Codec.Conversion.{read_int64, read_int64-decimal}
use smyte_db.Codec.Value.{
  RedisValue, integer, error, simple_string, array, bulk_string_array, null_string, async_result,
  nil, cons, RedisMessage,
}
use smyte_db.Codec.Value.Encode.{
  encode, escape, encode_bulk, encode_bulks, decimal, show_int, crlf, count,
}
use smyte_db.Codec.Value.Wire.{encode_one_line, InLine}
use smyte_db.Codec.Decoder.{
  decode, incomplete, decode_trimmed, skip_noise, read_length, after_field, decode_array,
}
use smyte_db.Codec.Decoder.Noise.{drop_crlf}
use smyte_db.Codec.Decoder.Roundtrip.{Decoded, decode-encode}
use smyte_db.Codec.Decoder.Incomplete.{decode_incomplete}

abbrev any_size : ℕ → Bool
any_size n = true

abbrev ping : List (List ℕ)
ping = codes "ping" ∷ codes "" ∷ []

abbrev ping_encoding : List ℕ
ping_encoding =
    codes "*2" ++ crlf ++ codes "$4" ++ crlf ++ codes "ping" ++ crlf ++ codes "$0" ++ crlf ++ crlf

encode-ping : encode (bulk_string_array ping) ≡ some ping_encoding
unfolding encode encode_bulks encode_bulk decimal
encode-ping = refl

-- The encoding behind an empty line and before one byte, in three buffers.
abbrev ping_queue : List (List ℕ)
ping_queue =
    (13 ∷ [])
    ∷ (10 ∷ b'*' ∷ b'2' ∷ 13 ∷ [])
    ∷ ((10 ∷ codes "$4") ++ crlf ++ codes "ping" ++ crlf ++ codes "$0" ++ crlf ++ crlf ++ codes "*")
    ∷ []

decode-encode_example :
    Decoded list_buffers read_int64 any_size ping
      (codes "*")
      (decode list_buffers read_int64 any_size ping_queue)
decode-encode_example =
    decode-encode list_buffers read_int64 any_size read_int64-decimal ping_queue 1 ping
      ping_encoding (codes "*") encode-ping refl (omega arith) (omega arith) (omega arith) refl

-- A request that breaks off inside its second length.
abbrev cut_queue : List (List ℕ)
cut_queue = (crlf ++ codes "*2" ++ 13 ∷ []) ∷ []

cut_incomplete : (decode list_buffers read_int64 any_size cut_queue).0 ≡ incomplete 1
unfolding decode decode_trimmed skip_noise read_length after_field decode_array split_at
cut_incomplete = refl

decode_incomplete_example :
    (0 < 1)
    × (flat (decode list_buffers read_int64 any_size cut_queue).1 ≡ drop_crlf (flat cut_queue))
decode_incomplete_example =
    decode_incomplete list_buffers read_int64 any_size cut_queue 1 cut_incomplete

abbrev nested : RedisValue
nested = array (cons (integer (negsuc 6)) (cons (array (cons async_result nil)) nil))

encode_one_line_example :
    (encode (error (codes "a" ++ crlf)) ≡ some (b'-' ∷ (escape (codes "a" ++ crlf) ++ crlf)))
    × (encode (simple_string (codes "a" ++ crlf))
        ≡ some (b'+' ∷ (escape (codes "a" ++ crlf) ++ crlf)))
    × All InLine (escape (codes "a" ++ crlf))
encode_one_line_example = encode_one_line (codes "a" ++ crlf)

encode-integers :
    encode (array (cons (integer (negsuc 41)) (cons null_string nil)))
    ≡ some (codes "*2" ++ crlf ++ codes ":-42" ++ crlf ++ codes "$-1" ++ crlf)
unfolding encode decimal show_int count
encode-integers = refl

abbrev two_messages : RedisMessage
two_messages = record { key = pos 3; val = bulk_string_array ping }
