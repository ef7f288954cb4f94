-- ===== src/Kafka/Offsets/Encoding.antt =====
-- The text of two offsets in infra/kafka/ConsumerHelper.h.
use native.Mathlib.Nat.{pow-suc}
use smyte_db.Prelude.{
  ℕ, zero, suc, ◌+◌, ◌-◌, ◌/◌, ◌%◌, ◌^◌, ◌<◌, ◌≤◌, ◌≡◌, refl, sym, ap, ◌∙◌, List, [], ◌∷◌, ◌++◌,
  Option, some, length, arith, take, drop, replicate, length-append, take-length-append, append-nil,
  subst,
}
use smyte_db.Prelude.Int.{ℤ, pos}
use smyte_db.Codec.Value.Encode.{decimal, decimal_fuel}
use smyte_db.Kafka.Offsets.{padded, encode_kafka_and_file_offsets, decode_kafka_and_file_offsets}

-- A number below a power of ten has at most so many digits.
length-decimal_fuel : (f n k : ℕ) → n < 10 ^ suc k → length (decimal_fuel f n) ≤ suc k
unfolding decimal_fuel
length-decimal_fuel zero n k h = omega arith
length-decimal_fuel (suc f) n zero h = ground arith
length-decimal_fuel (suc f) n (suc k) h = ground (
  arith,
  length-append (decimal_fuel f (n / 10)) ((48 + n % 10) ∷ []),
  length-decimal_fuel f (n / 10) k (omega (arith, pow-suc 10 (suc k))),
)

length-replicate : (n c : ℕ) → length (replicate n c) ≡ n
length-replicate zero c = refl
length-replicate (suc n) c = ap suc (length-replicate n c)

length-padded : (n : ℕ) → n < 9223372036854775808 → length (padded n) ≡ 20
unfolding padded decimal
length-padded n h = omega (
  arith,
  length-append (replicate (20 - length (decimal n)) 48) (decimal n),
  length-replicate (20 - length (decimal n)) 48,
  length-decimal_fuel (suc n) n 19 (omega arith),
)

take-front : (n : ℕ) (l rest : List ℕ) → length l ≡ n → take n (l ++ rest) ≡ l
take-front n l rest h = subst (λ n. take n (l ++ rest) ≡ l) h (take-length-append l rest)

take_all : (n : ℕ) (l : List ℕ) → length l ≡ n → take n l ≡ l
take_all n l h = ap (take n) (sym (append-nil l)) ∙ take-front n l [] h

skip_past : (l rest : List ℕ) (c : ℕ) → drop (suc (length l)) (l ++ (c ∷ rest)) ≡ rest
skip_past [] rest c = refl
skip_past (x ∷ l) rest c = skip_past l rest c

drop-past : (n : ℕ) (l rest : List ℕ) (c : ℕ) → length l ≡ n → drop (suc n) (l ++ (c ∷ rest)) ≡ rest
drop-past n l rest c h = subst (λ n. drop (suc n) (l ++ (c ∷ rest)) ≡ rest) h (skip_past l rest c)

decoded_pair :
    (to_int64 : List ℕ → Option ℤ) (offset_invalid : ℤ) (value first second : List ℕ) (x y : ℤ)
    → length value ≡ 41
    → take 20 value ≡ first
    → take 20 (drop 21 value) ≡ second
    → to_int64 first ≡ some x
    → to_int64 second ≡ some y
    → decode_kafka_and_file_offsets to_int64 offset_invalid value ≡ some (x, y)
unfolding decode_kafka_and_file_offsets
decoded_pair to_int64 offset_invalid value first second x y l a b rx ry =
    rw (l, a, b) (rw (rx, ry) refl)

-- If the conversion reads decimal numbers below 2^63 with any leading zeros, then two offsets in that
-- range are encoded, in 41 bytes, and decoded as they were.
pub decode-encode_offsets :
    (to_int64 : List ℕ → Option ℤ) (offset_invalid : ℤ) (kafka_offset file_offset : ℕ)
    → ((zeros n : ℕ)
        → n < 9223372036854775808
        → to_int64 (replicate zeros b'0' ++ decimal n) ≡ some (pos n))
    → kafka_offset < 9223372036854775808
    → file_offset < 9223372036854775808
    → (value : List ℕ) × (encode_kafka_and_file_offsets (pos kafka_offset) (pos file_offset)
        ≡ some value)
      × (length value ≡ 41)
      × (decode_kafka_and_file_offsets to_int64 offset_invalid value
          ≡ some (pos kafka_offset, pos file_offset))
unfolding encode_kafka_and_file_offsets padded
decode-encode_offsets to_int64 offset_invalid kafka_offset file_offset reads hk hf =
    let k = length-padded kafka_offset hk in
    let f = length-padded file_offset hf in
    let whole : length (padded kafka_offset ++ (b':' ∷ padded file_offset)) ≡ 41 =
      omega (arith, length-append (padded kafka_offset) (b':' ∷ padded file_offset), k, f) in
    (
      padded kafka_offset ++ (b':' ∷ padded file_offset),
      refl,
      whole,
      decoded_pair to_int64 offset_invalid (padded kafka_offset ++ (b':' ∷ padded file_offset))
          (padded kafka_offset) (padded file_offset) (pos kafka_offset) (pos file_offset) whole
          (take-front 20 (padded kafka_offset) (b':' ∷ padded file_offset) k)
          (ap (take 20) (drop-past 20 (padded kafka_offset) (padded file_offset) b':' k)
            ∙ take_all 20 (padded file_offset) f)
          (reads (20 - length (decimal kafka_offset)) kafka_offset hk)
          (reads (20 - length (decimal file_offset)) file_offset hf),
    )
