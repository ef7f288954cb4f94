-- ===== src/Codec/Value/Encode.antt =====
-- RedisValue::encode of codec/RedisValue.cpp.
use smyte_db.Prelude.{
  ℕ, zero, suc, ◌+◌, ◌/◌, ◌%◌, List, [], ◌∷◌, ◌++◌, Option, none, some, length, ltb, if◌then◌else◌,
  ◌==◌,
}
use smyte_db.Prelude.Int.{ℤ, pos, negsuc}
use smyte_db.Codec.Value.{
  RedisValue, integer, error, simple_string, bulk_string, array, bulk_string_array, null_string,
  async_result, Values, nil, cons,
}

abbrev pub crlf : List ℕ
crlf = 13 ∷ 10 ∷ []

-- A number as `<<` prints it, most significant digit first. More fuel than the number changes
-- nothing.
unfoldable pub decimal_fuel : ℕ → ℕ → List ℕ
decimal_fuel zero n = []
decimal_fuel (suc f) n =
    let higher = decimal_fuel f (n / 10) in
    if ltb n 10 then (48 + n) ∷ [] else higher ++ (48 + n % 10) ∷ []

unfoldable pub decimal : ℕ → List ℕ
unfolding decimal_fuel
decimal n = decimal_fuel (suc n) n

unfoldable pub show_int : ℤ → List ℕ
unfolding decimal
show_int (pos n) = decimal n
show_int (negsuc n) = b'-' ∷ decimal (suc n)

-- Carriage returns and line feeds become the two characters that C writes them with.
unfoldable pub escape : List ℕ → List ℕ
escape [] = []
escape (c ∷ cs) =
    let rest = escape cs in
    if c == 13 then b'\\' ∷ b'r' ∷ rest else if c == 10 then b'\\' ∷ b'n' ∷ rest else c ∷ rest

-- A field with its length in front and its line end behind.
unfoldable pub encode_bulk : List ℕ → List ℕ
unfolding decimal
encode_bulk s = b'$' ∷ (decimal (length s) ++ (crlf ++ (s ++ crlf)))

unfoldable pub encode_bulks : List (List ℕ) → List ℕ
unfolding encode_bulk
encode_bulks [] = []
encode_bulks (s ∷ ss) = encode_bulk s ++ encode_bulks ss

unfoldable pub count : Values → ℕ
count nil = 0
count (cons x xs) = suc (count xs)

-- Two encodings, one behind the other; a failed one stays failed.
abbrev pub join : Option (List ℕ) → Option (List ℕ) → Option (List ℕ)
join none b = none
join (some a) none = none
join (some a) (some b) = some (a ++ b)

-- `none` is LOG(FATAL), which an async result meets, at the top or inside an array.
unfoldable mutual
  pub encode : RedisValue → Option (List ℕ)
  encode (integer n) = some (b':' ∷ (show_int n ++ crlf))
  encode (error s) = some (b'-' ∷ (escape s ++ crlf))
  encode (simple_string s) = some (b'+' ∷ (escape s ++ crlf))
  encode (bulk_string s) = some (encode_bulk s)
  encode (array xs) = join (some (b'*' ∷ (decimal (count xs) ++ crlf))) (encode_all xs)
  encode (bulk_string_array ss) = some (b'*' ∷ (decimal (length ss) ++ (crlf ++ encode_bulks ss)))
  encode null_string = some (b'$' ∷ b'-' ∷ b'1' ∷ crlf)
  encode async_result = none

  pub encode_all : Values → Option (List ℕ)
  encode_all nil = some []
  encode_all (cons x xs) = join (encode x) (encode_all xs)
