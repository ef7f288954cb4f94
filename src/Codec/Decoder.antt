-- ===== src/Codec/Decoder.antt =====
-- codec/RedisDecoder.cpp. The buffers are the operations of `Buffers`, `folly::to<int64_t>` is the
-- argument `to_int64`, with `none` for the exception that the code catches, and `can_reserve` says
-- of which sizes `std::vector::reserve` succeeds; if it does not, it throws out of `decode`.
pub mod Noise
pub mod Items
pub mod Fields
pub mod Roundtrip
pub mod Incomplete
use smyte_db.Prelude.{
  ℕ, zero, suc, ◌+◌, ◌-◌, List, [], ◌∷◌, ◌++◌, length, Option, none, some, Bool, true, false, not,
  ◌&&◌, codes, ltb, leb, ◌==◌, if◌then◌else◌,
}
use smyte_db.Prelude.Int.{ℤ, pos, negsuc, leb_ℤ}
use smyte_db.Codec.Buffers.{Buffers, Terminated, found, out_of_range, other_exception}
use smyte_db.Codec.Value.{RedisValue, error, bulk_string_array}

-- LengthFieldState with the value that goes with it: `needed` and the length that is returned.
pub data LengthField : Type 0 where
  k_invalid : LengthField
  k_more_bytes_needed : ℕ → LengthField
  k_valid : ℤ → LengthField

-- What `decode` does but for the queue: it returns false with `needed` set, returns true with the
-- message's value and perhaps `needed` set, or throws.
pub data Outcome : Type 0 where
  incomplete : ℕ → Outcome
  message : RedisValue → Option ℕ → Outcome
  thrown : Outcome

abbrev pub min_bytes_needed : ℕ
min_bytes_needed = 2

-- The errors of the protocol, and their texts.
pub data ProtocolError : Type 0 where
  array_length bulk_length line_end : ProtocolError

unfoldable pub error_text : ProtocolError → List ℕ
error_text array_length = codes "Protocol Error: Invalid Array length"
error_text bulk_length = codes "Protocol Error: Invalid Bulk String length"
error_text line_end = codes "Protocol Error: Expect '\\r\\n'"

-- How a round of decode's loop ends: decode returns, or the round has read a string.
pub data Item (Q C : Type 0) : Type 0 where
  stop : Outcome × Q → Item Q C
  item : List ℕ → C → Item Q C

-- How far the bytes of one buffer are pairs of a carriage return and a line feed.
unfoldable pub crlf_run : List ℕ → ℕ
crlf_run [] = 0
crlf_run (a ∷ []) = 0
crlf_run (a ∷ b ∷ rest) =
    let more = crlf_run rest in if a == 13 && b == 10 then suc (suc more) else 0

-- The field without its type indicator, if it has one and a byte behind it.
unfoldable pub field_digits : ℕ → List ℕ → Option (List ℕ)
field_digits t [] = none
field_digits t (c ∷ []) = none
field_digits t (c ∷ d ∷ ds) = if c == t then some (d ∷ ds) else none

module _ (bufs : Buffers) (to_int64 : List ℕ → Option ℤ) (can_reserve : ℕ → Bool) where
  open bufs use {
    Queue, Cursor, chain_length, front, trim_start, total_length, current, skip, read,
    read_fixed_string, read_terminated_string, distance,
  }

  -- One round of the loop of skipNoise: the new cursor, and whether the loop goes on.
  unfoldable pub skip_noise_step : Cursor → Cursor × Bool
  unfolding crlf_run
  skip_noise_step c =
      let buf = current c in
      if ltb (length buf) 2
      then (let (a, tmp) = read c in
          if a == 13
          then (let (b, tmp') = read tmp in if b == 10 then (skip 2 c, true) else (c, false))
          else (c, false))
      else (let i = crlf_run buf in (skip i c, not (ltb (i + 1) (length buf))))

  unfoldable pub skip_noise_loop : ℕ → Cursor → Cursor
  unfolding skip_noise_step
  skip_noise_loop zero c = c
  skip_noise_loop (suc fuel) c =
      let (c', more) = skip_noise_step c in
      let rest = skip_noise_loop fuel c' in
      if leb 2 (total_length c) then (if more then rest else c') else c

  -- Each round that goes on moves the cursor, so that there are fewer rounds than bytes.
  unfoldable pub skip_noise : Cursor → Cursor
  unfolding skip_noise_loop
  skip_noise c = skip_noise_loop (total_length c) c

  -- The conversion at the end of readLength.
  abbrev pub to_length : Option (List ℕ) → LengthField
  to_length none = k_invalid
  to_length (some ds) = elim (to_int64 ds) [ none ↦ k_invalid | some n ↦ k_valid n ]

  -- readLength behind the search for the carriage return.
  unfoldable pub after_field : ℕ → List ℕ → Cursor → LengthField × Cursor
  unfolding field_digits
  after_field t field c =
      if total_length c == 0
      then (k_more_bytes_needed 1, c)
      else (let (b, c') = read c in
          if b == 10 then (to_length (field_digits t field), c') else (k_invalid, c'))

  unfoldable pub read_length : ℕ → Cursor → LengthField × Cursor
  unfolding after_field
  read_length t c =
      if ltb (total_length c) min_bytes_needed
      then (k_more_bytes_needed (min_bytes_needed - total_length c), c)
      else elim (read_terminated_string 13 c) [
        | found field c' ↦ after_field t field c'
        | out_of_range ↦ (k_more_bytes_needed 2, c)
        | other_exception ↦ (k_invalid, c)
      ]

  -- A message is complete: the bytes up to the cursor are dropped.
  unfoldable pub finish : Queue → Cursor → Cursor → RedisValue → Outcome × Queue
  finish buf start curr value =
      let buf' = trim_start (distance curr start) buf in
      (
        message value (
            if ltb (chain_length buf') min_bytes_needed
            then some (min_bytes_needed - chain_length buf')
            else none),
        buf',
      )

  abbrev pub fail : Queue → Cursor → Cursor → ProtocolError → Outcome × Queue
  fail buf start curr e = finish buf start curr (error (error_text e))

  -- The string of a field.
  unfoldable pub read_text : ℕ → Cursor → List ℕ × Cursor
  read_text n curr = if ltb 0 n then read_fixed_string n curr else ([], curr)

  -- The line end behind a string.
  unfoldable pub read_line_end : Queue → Cursor → List ℕ × Cursor → Item Queue Cursor
  unfolding finish error_text
  read_line_end buf start (s, curr) =
      if ltb (total_length curr) 2
      then stop (incomplete 2, buf)
      else (let (a, curr₁) = read curr in
          if a == 13
          then (let (b, curr₂) = read curr₁ in
              if b == 10 then item s curr₂ else stop (fail buf start curr₂ line_end))
          else stop (fail buf start curr₁ line_end))

  -- The part of a round of decode's loop behind a readLength that found a length.
  unfoldable pub read_item : Queue → Cursor → ℤ → Cursor → Item Queue Cursor
  unfolding finish error_text read_text read_line_end
  read_item buf start (negsuc n) curr = stop (fail buf start curr bulk_length)
  read_item buf start (pos n) curr =
      if ltb (total_length curr) (n + 2)
      then stop (incomplete (n + 2 - total_length curr), buf)
      else read_line_end buf start (read_text n curr)

  unfoldable pub read_field : Queue → Cursor → LengthField × Cursor → Item Queue Cursor
  unfolding read_item
  read_field buf start (k_invalid, curr) = stop (fail buf start curr bulk_length)
  read_field buf start (k_more_bytes_needed k, curr) = stop (incomplete k, buf)
  read_field buf start (k_valid len, curr) = read_item buf start len curr

  -- decode's loop, with the rounds that are left and the strings so far.
  unfoldable pub decode_items : ℕ → Queue → Cursor → Cursor → List (List ℕ) → Outcome × Queue
  decode_items zero buf start curr strings = finish buf start curr (bulk_string_array strings)
  decode_items (suc n) buf start curr strings =
      elim (read_field buf start (read_length b'$' curr)) [
        | stop r ↦ r
        | item s curr' ↦ decode_items n buf start curr' (strings ++ s ∷ [])
      ]

  -- decode behind the array length.
  unfoldable pub decode_array : Queue → Cursor → LengthField × Cursor → Outcome × Queue
  decode_array buf start (k_invalid, curr) = fail buf start curr array_length
  decode_array buf start (k_more_bytes_needed k, curr) = (incomplete k, buf)
  decode_array buf start (k_valid (negsuc n), curr) = fail buf start curr array_length
  decode_array buf start (k_valid (pos n), curr) =
      if n == 0
      then fail buf start curr array_length
      else if can_reserve n
      then decode_items n buf start curr []
      else (thrown, buf)

  unfoldable pub decode_trimmed : Queue → Outcome × Queue
  decode_trimmed buf =
      if chain_length buf == 0
      then (incomplete min_bytes_needed, buf)
      else decode_array buf (front buf) (read_length b'*' (front buf))

  unfoldable pub decode : Queue → Outcome × Queue
  decode buf =
      if ltb (chain_length buf) min_bytes_needed
      then (incomplete (min_bytes_needed - chain_length buf), buf)
      else decode_trimmed (trim_start (distance (skip_noise (front buf)) (front buf)) buf)
