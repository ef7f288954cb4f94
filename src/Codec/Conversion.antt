-- ===== src/Codec/Conversion.antt =====
-- A conversion of texts to 64-bit integers, which stands for `folly::to<int64_t>` in examples: an
-- optional minus sign and decimal digits, within the range.
use smyte_db.Prelude.{
  ℕ, zero, suc, ◌^◌, ◌<◌, ◌≡◌, refl, ◌++◌, replicate, List, [], ◌∷◌, Option, none, some, Bool, true,
  ◌&&◌, ltb, leb, ◌==◌, if◌then◌else◌, arith, All, lt→ltb,
}
use smyte_db.Prelude.Int.{ℤ, pos, negsuc}
use smyte_db.Codec.Value.Encode.{decimal}
use smyte_db.Codec.Value.Decimal.{
  IsDigit, decimal-IsDigit, number_from, number-decimal, decimal-Cons,
}

abbrev pub all_digits : List ℕ → Bool
all_digits [] = true
all_digits (c ∷ cs) = leb 48 c && leb c 57 && all_digits cs

abbrev pub read_digits : List ℕ → Option ℤ
read_digits ds =
    if all_digits ds
    then (if ltb (number_from 0 ds) (2 ^ 63) then some (pos (number_from 0 ds)) else none)
    else none

abbrev negate : Option ℤ → Option ℤ
negate (some (pos (suc n))) = some (negsuc n)
negate (some (pos zero)) = some (pos zero)
negate _ = none

pub read_int64 : List ℕ → Option ℤ
read_int64 [] = none
read_int64 (c ∷ cs) = if c == b'-' then negate (read_digits cs) else read_digits (c ∷ cs)

all_digits-true : (l : List ℕ) → All IsDigit l → all_digits l ≡ true
all_digits-true [] h = refl
all_digits-true (c ∷ cs) h = ground (arith, all_digits-true cs)

read_int64-digits :
    (l : List ℕ) (d : ℕ) (ds : List ℕ) → l ≡ d ∷ ds → All IsDigit l → read_int64 l ≡ read_digits l
unfolding read_int64
read_int64-digits [] d ds e h = absurd (cc)
read_int64-digits (c ∷ cs) d ds e h = ground arith

pub read_int64-decimal : (n : ℕ) → n < 9223372036854775808 → read_int64 (decimal n) ≡ some (pos n)
read_int64-decimal n h =
    let c = decimal-Cons n in
    rw (read_int64-digits (decimal n) c.head c.tail c.eq (decimal-IsDigit n)) (
      rw (all_digits-true (decimal n) (decimal-IsDigit n), number-decimal n)
        (rw (lt→ltb n (2 ^ 63) h)))

number_from-zeros :
    (zeros : ℕ) (l : List ℕ) → number_from 0 (replicate zeros b'0' ++ l) ≡ number_from 0 l
unfolding number_from
number_from-zeros zero l = refl
number_from-zeros (suc zeros) l = number_from-zeros zeros l

zeros-IsDigit : (zeros : ℕ) (l : List ℕ) → All IsDigit l → All IsDigit (replicate zeros b'0' ++ l)
zeros-IsDigit zero l h = h
zeros-IsDigit (suc zeros) l h = ((omega arith, omega arith), zeros-IsDigit zeros l h)

-- Leading zeros change nothing.
pub read_int64-padded :
    (zeros n : ℕ)
    → n < 9223372036854775808
    → read_int64 (replicate zeros b'0' ++ decimal n) ≡ some (pos n)
read_int64-padded zero n h = read_int64-decimal n h
read_int64-padded (suc zeros) n h =
    let digits = zeros-IsDigit (suc zeros) (decimal n) (decimal-IsDigit n) in
    rw
      (read_int64-digits (replicate (suc zeros) b'0' ++ decimal n) b'0'
        (replicate zeros b'0' ++ decimal n) refl digits)
      (rw (all_digits-true (replicate (suc zeros) b'0' ++ decimal n) digits) (
        rw (number_from-zeros (suc zeros) (decimal n), number-decimal n)
          (rw (lt→ltb n (2 ^ 63) h) refl)))
