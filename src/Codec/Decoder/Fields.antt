-- ===== src/Codec/Decoder/Fields.antt =====
-- readLength and the rounds of decode's loop of codec/RedisDecoder.cpp on well-formed input.
use smyte_db.Prelude.{
  ℕ, ◌+◌, ◌≤◌, ◌≡◌, ◌≢◌, refl, ap, ◌∙◌, List, [], ◌∷◌, ◌++◌, length, take, drop, Option, some, Bool,
  false, ltb, arith, length-append, All, take-length-append, drop-length-append,
}
use smyte_db.Prelude.Int.{ℤ, pos}
use smyte_db.Codec.Buffers.{Buffers, split_at, split_at-append}
use smyte_db.Codec.Value.Encode.{decimal}
use smyte_db.Codec.Value.Decimal.{IsDigit, decimal-IsDigit, decimal-Cons}
use smyte_db.Codec.Decoder.{
  read_text, read_line_end, read_length, after_field, field_digits, read_item, k_valid, item,
}

-- A length field: the indicator, the number and the line end.
abbrev pub length_line : ℕ → ℕ → List ℕ → List ℕ
length_line t n rest = (t ∷ decimal n) ++ 13 ∷ 10 ∷ rest

no_cr : (l : List ℕ) → All IsDigit l → All (λ c. c ≢ 13) l
no_cr [] h = tt
no_cr (c ∷ cs) h = (omega arith, no_cr cs h.1)

field_digits-decimal : (t n : ℕ) → field_digits t (t ∷ decimal n) ≡ some (decimal n)
unfolding field_digits
field_digits-decimal t n = let c = decimal-Cons n in rw (c.eq, field_digits) (ground arith)

pub not_short : (n : ℕ) → 2 ≤ n → ltb n 2 ≡ false
not_short n h = ground arith

long_enough : (n k : ℕ) → k + 2 ≤ n → ltb n (k + 2) ≡ false
long_enough n k h = ground arith

module _ (bufs : Buffers) (to_int64 : List ℕ → Option ℤ) (can_reserve : ℕ → Bool) where
  open bufs use {
    Queue, Cursor, contents, bytes, total_length, read, read_fixed_string, read_terminated_string,
    total_length_lem, read_lem, read_fixed_string_lem, read_terminated_found,
  }

  after_field_lem :
      (t n : ℕ) (c : Cursor) (rest : List ℕ)
      → bytes c ≡ 10 ∷ rest
      → to_int64 (decimal n) ≡ some (pos n)
      → (d : Cursor) × (after_field bufs to_int64 can_reserve t (t ∷ decimal n) c
          ≡ (k_valid (pos n), d))
        × (bytes d ≡ rest)
  unfolding after_field
  after_field_lem t n c rest e conv =
      let r = read_lem c 10 rest e in
      ((read c).1, ground (arith, total_length_lem c, ap length e, field_digits-decimal t n), r.1)

  -- readLength on a length field.
  pub read_length_lem :
      (t n : ℕ) (c : Cursor) (rest : List ℕ)
      → t ≢ 13
      → bytes c ≡ length_line t n rest
      → to_int64 (decimal n) ≡ some (pos n)
      → (d : Cursor) × (read_length bufs to_int64 can_reserve t c ≡ (k_valid (pos n), d))
        × (bytes d ≡ rest)
  unfolding read_length
  read_length_lem t n c rest ht e conv =
      let s =
        split_at-append 13 (t ∷ decimal n) (10 ∷ rest)
          (ht, no_cr (decimal n) (decimal-IsDigit n)) in
      let (mid, found_eq, mid_eq) =
        read_terminated_found 13 c (t ∷ decimal n) (10 ∷ rest) (ap (split_at 13) e ∙ s) in
      let (d, d_eq, rest_eq) = after_field_lem t n mid rest mid_eq conv in
      let size : 2 ≤ length (bytes c) =
        rw e (omega (arith, length-append (t ∷ decimal n) (13 ∷ 10 ∷ rest))) in
      (
        d,
        rw (not_short (total_length c) (omega (arith, size, total_length_lem c)), found_eq) d_eq,
        rest_eq,
      )

  read_text_lem :
      (c : Cursor) (s more : List ℕ)
      → bytes c ≡ s ++ more
      → ((read_text bufs to_int64 can_reserve (length s) c).0 ≡ s)
        × (bytes (read_text bufs to_int64 can_reserve (length s) c).1 ≡ more)
  unfolding read_text
  read_text_lem c [] more e = (refl, e)
  read_text_lem c (x ∷ s) more e =
      let size = ap length e ∙ length-append (x ∷ s) more in
      let r = read_fixed_string_lem (length (x ∷ s)) c (omega (arith, size)) in
      ground (
        arith,
        r,
        ap (take (length (x ∷ s))) e,
        ap (drop (length (x ∷ s))) e,
        take-length-append (x ∷ s) more,
        drop-length-append (x ∷ s) more,
      )

  read_line_end_lem :
      (buf : Queue) (start : Cursor) (s rest : List ℕ) (r : List ℕ × Cursor)
      → r.0 ≡ s
      → bytes r.1 ≡ 13 ∷ 10 ∷ rest
      → (d : Cursor) × (read_line_end bufs to_int64 can_reserve buf start r ≡ item s d)
        × (bytes d ≡ rest)
  unfolding read_line_end
  read_line_end_lem buf start s rest (s', c) es e =
      let a = read_lem c 13 (10 ∷ rest) e in
      let b = read_lem (read c).1 10 rest a.1 in
      let enough = not_short (total_length c) (omega (arith, total_length_lem c, ap length e)) in
      (
        (read (read c).1).1,
        rw (enough, a.0) (rw b.0 (ap (λ l. item l (read (read c).1).1) es)),
        b.1,
      )

  -- A round of the loop on a string and its line end.
  pub read_item_lem :
      (buf : Queue) (start c : Cursor) (s rest : List ℕ)
      → bytes c ≡ s ++ 13 ∷ 10 ∷ rest
      → (d : Cursor) × (read_item bufs to_int64 can_reserve buf start (pos (length s)) c ≡ item s d)
        × (bytes d ≡ rest)
  unfolding read_item
  read_item_lem buf start c s rest e =
      let size = ap length e ∙ length-append s (13 ∷ 10 ∷ rest) in
      let enough =
        long_enough (total_length c) (length s) (omega (arith, size, total_length_lem c)) in
      let r = read_text_lem c s (13 ∷ 10 ∷ rest) e in
      rw enough (
        read_line_end_lem buf start s rest (read_text bufs to_int64 can_reserve (length s) c) r.0
          r.1)
