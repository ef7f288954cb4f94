-- ===== src/Codec/Decoder/Roundtrip.antt =====
-- What codec/RedisDecoder.cpp makes of the encoding of a request.
use smyte_db.Codec.Decoder.Items.{decode_items_lem}
use smyte_db.Prelude.{
  ℕ, zero, suc, ◌-◌, ◌≤◌, ◌<◌, ◌≡◌, ◌≢◌, refl, sym, ap, ◌∙◌, List, [], ◌∷◌, ◌++◌, length, drop,
  Option, none, some, Bool, true, false, ltb, ◌==◌, if◌then◌else◌, arith, length-append, All,
  drop-length-append, append_assoc, subst, All-map,
}
use smyte_db.Prelude.Int.{ℤ, pos}
use smyte_db.Codec.Buffers.{Buffers}
use smyte_db.Codec.Value.{RedisValue, bulk_string_array}
use smyte_db.Codec.Value.Encode.{encode, decimal, encode_bulks}
use smyte_db.Codec.Value.Decimal.{decimal-Cons}
use smyte_db.Codec.Decoder.{
  read_length, decode_items, decode_array, decode_trimmed, decode, finish, k_valid, message,
  Outcome, skip_noise,
}
use smyte_db.Codec.Decoder.Noise.{drop_crlf, noise, noise-append-drop_crlf, bytes-skip_noise}
use smyte_db.Codec.Decoder.Fields.{length_line, not_short, read_length_lem}

-- `needed` is set if less than a line end is left behind a message.
unfoldable pub still_needed : List ℕ → Option ℕ
still_needed rest = if ltb (length rest) 2 then some (2 - length rest) else none

-- A request on the wire, and what follows it.
abbrev pub wire : List (List ℕ) → List ℕ → List ℕ
wire ss rest = length_line b'*' (length ss) (encode_bulks ss ++ rest)

-- So many empty lines.
abbrev pub empty_lines : ℕ → List ℕ
empty_lines zero = []
empty_lines (suc n) = 13 ∷ 10 ∷ empty_lines n

drop_crlf-wire :
    (n : ℕ) (ss : List (List ℕ)) (rest : List ℕ)
    → drop_crlf (empty_lines n ++ wire ss rest) ≡ wire ss rest
unfolding drop_crlf
drop_crlf-wire zero ss rest = ground (arith, (decimal-Cons (length ss)).eq)
drop_crlf-wire (suc n) ss rest = drop_crlf-wire n ss rest

star_ne_cr : ◌≢◌ {A = ℕ} b'*' 13
star_ne_cr = omega arith

some_inj : {a b : List ℕ} → some a ≡ some b → a ≡ b
some_inj e = cc

encode-wire :
    (ss : List (List ℕ)) (rest w : List ℕ)
    → encode (bulk_string_array ss) ≡ some w
    → w ++ rest ≡ wire ss rest
unfolding encode
encode-wire ss rest w e = ap (λ v. v ++ rest) (sym (some_inj e)) ∙ simp append_assoc

wire_split :
    (ss : List (List ℕ)) (rest : List ℕ)
    → wire ss rest ≡ length_line b'*' (length ss) (encode_bulks ss) ++ rest
wire_split ss rest = simp append_assoc

wire-length : (ss : List (List ℕ)) (rest : List ℕ) → 2 ≤ length (wire ss rest)
wire-length ss rest =
    omega (arith, length-append (b'*' ∷ decimal (length ss)) (13 ∷ 10 ∷ (encode_bulks ss ++ rest)))

non_zero : (n : ℕ) → 0 < n → (n == 0) ≡ false
non_zero n h = ground arith

module _ (bufs : Buffers) (to_int64 : List ℕ → Option ℤ) (can_reserve : ℕ → Bool) where
  open bufs use {
    Queue, Cursor, contents, bytes, total_length, front, trim_start, distance, chain_length,
    total_length_lem, chain_length_lem, bytes-front, contents-trim_start, distance_lem,
  }

  -- Bytes dropped up to a cursor leave what the cursor stands before.
  trim_lem :
      (q : Queue) (start c : Cursor) (pre : List ℕ)
      → bytes start ≡ contents q
      → bytes start ≡ pre ++ bytes c
      → contents (trim_start (distance c start) q) ≡ bytes c
  trim_lem q start c pre e f =
      let d = distance_lem c start pre f in
      let size = ap length (sym e ∙ f) ∙ length-append pre (bytes c) in
      rw d (
        contents-trim_start (length pre) q (omega (arith, size))
        ∙ ap (drop (length pre)) (sym e ∙ f)
        ∙ drop-length-append pre (bytes c))

  -- A message that is complete.
  finish_lem :
      (q : Queue) (start c : Cursor) (pre rest : List ℕ) (v : RedisValue)
      → bytes start ≡ contents q
      → bytes start ≡ pre ++ bytes c
      → bytes c ≡ rest
      → ((finish bufs to_int64 can_reserve q start c v).0 ≡ message v (still_needed rest))
        × (contents (finish bufs to_int64 can_reserve q start c v).1 ≡ rest)
  unfolding finish still_needed
  finish_lem q start c pre rest v e f g =
      let left = trim_lem q start c pre e f ∙ g in
      let size = chain_length_lem (trim_start (distance c start) q) ∙ ap length left in
      (rw size refl, left)

  -- The bytes of a queue without the leading noise.
  pub trimmed_lem :
      (q : Queue)
      → contents
          (trim_start (distance (skip_noise bufs to_int64 can_reserve (front q)) (front q)) q)
        ≡ drop_crlf (contents q)
  trimmed_lem q =
      let c = skip_noise bufs to_int64 can_reserve (front q) in
      let b = bytes-skip_noise bufs to_int64 can_reserve q in
      let whole = noise-append-drop_crlf (contents q) ∙ ap (λ l. noise (contents q) ++ l) (sym b) in
      trim_lem q (front q) c (noise (contents q)) (bytes-front q) (bytes-front q ∙ whole) ∙ b

  array_step :
      (q : Queue) (c : Cursor) (m : ℕ)
      → 0 < chain_length q
      → can_reserve (suc m) ≡ true
      → read_length bufs to_int64 can_reserve b'*' (front q) ≡ (k_valid (pos (suc m)), c)
      → decode_trimmed bufs to_int64 can_reserve q
        ≡ decode_items bufs to_int64 can_reserve (suc m) q (front q) c []
  unfolding decode_trimmed decode_array
  array_step q c m some_bytes r e =
      rw (non_zero (chain_length q) some_bytes)
        (rw (e, decode_array) (rw (non_zero (suc m) (omega arith), r)))

  -- What decode returns on a request, the noise gone.
  pub record Decoded (ss : List (List ℕ)) (rest : List ℕ) (r : Outcome × Queue) : Type 0 where
    pub outcome : r.0 ≡ message (bulk_string_array ss) (still_needed rest)
    pub left : contents r.1 ≡ rest

  module _ (q : Queue) (s : List ℕ) (ss : List (List ℕ)) (rest : List ℕ)
      (e : contents q ≡ wire (s ∷ ss) rest) (room : can_reserve (length (s ∷ ss)) ≡ true)
      (conv : to_int64 (decimal (length (s ∷ ss))) ≡ some (pos (length (s ∷ ss))))
      (convs : All (λ x. to_int64 (decimal (length x)) ≡ some (pos (length x))) (s ∷ ss)) where
    items_done :
        (c : Cursor)
        → read_length bufs to_int64 can_reserve b'*' (front q)
          ≡ (k_valid (pos (length (s ∷ ss))), c)
        → bytes c ≡ encode_bulks (s ∷ ss) ++ rest
        → Decoded (s ∷ ss) rest (decode_trimmed bufs to_int64 can_reserve q)
    items_done c e₁ b₁ =
        let r =
          decode_items_lem bufs to_int64 can_reserve (s ∷ ss) [] q (front q) c rest convs b₁ in
        let whole : bytes (front q)
            ≡ length_line b'*' (length (s ∷ ss)) (encode_bulks (s ∷ ss)) ++ bytes r.0 =
          bytes-front q
          ∙ e
          ∙ wire_split (s ∷ ss) rest
          ∙ ap (λ l. length_line b'*' (length (s ∷ ss)) (encode_bulks (s ∷ ss)) ++ l) (sym r.2) in
        let f =
          finish_lem q (front q) r.0 (length_line b'*' (length (s ∷ ss)) (encode_bulks (s ∷ ss)))
            rest (bulk_string_array (s ∷ ss)) (bytes-front q) whole r.2 in
        let some_bytes : 0 < chain_length q =
          omega (arith, chain_length_lem q, ap length e, wire-length (s ∷ ss) rest) in
        let run = array_step q c (length ss) some_bytes room e₁ ∙ r.1 in
        record { outcome = ap (λ p. p.0) run ∙ f.0; left = ap (λ p. contents p.1) run ∙ f.1 }

    trimmed_done : Decoded (s ∷ ss) rest (decode_trimmed bufs to_int64 can_reserve q)
    trimmed_done =
        let r =
          read_length_lem bufs to_int64 can_reserve b'*' (length (s ∷ ss)) (front q)
            (encode_bulks (s ∷ ss) ++ rest) star_ne_cr (bytes-front q ∙ e) conv in
        items_done r.0 r.1 r.2

  -- decode_trimmed_lem for every request that is not empty.
  trimmed_lem-All :
      (q : Queue) (ss : List (List ℕ)) (rest : List ℕ)
      → contents q ≡ wire ss rest
      → 0 < length ss
      → can_reserve (length ss) ≡ true
      → to_int64 (decimal (length ss)) ≡ some (pos (length ss))
      → All (λ x. to_int64 (decimal (length x)) ≡ some (pos (length x))) ss
      → Decoded ss rest (decode_trimmed bufs to_int64 can_reserve q)
  trimmed_lem-All q [] rest e h room conv convs = absurd (omega arith)
  trimmed_lem-All q (s ∷ ss) rest e h room conv convs = trimmed_done q s ss rest e room conv convs

  pub decode_trims :
      (q : Queue)
      → 2 ≤ length (contents q)
      → decode bufs to_int64 can_reserve q
        ≡ decode_trimmed bufs to_int64 can_reserve
            (trim_start (distance (skip_noise bufs to_int64 can_reserve (front q)) (front q)) q)
  unfolding decode
  decode_trims q h = rw (not_short (chain_length q) (omega (arith, h, chain_length_lem q)))

  -- A request is decoded from any buffers that hold empty lines, its encoding and further bytes: if
  -- the conversion reads the decimal numbers below 2^63 and the vector's size can be reserved, decode
  -- returns true with the array of the request's strings, reports how many bytes are missing to a
  -- line end, and leaves exactly the further bytes.
  pub decode-encode :
      ((n : ℕ) → n < 9223372036854775808 → to_int64 (decimal n) ≡ some (pos n))
      → (q : Queue) (lines : ℕ) (ss : List (List ℕ)) (encoding rest : List ℕ)
      → encode (bulk_string_array ss) ≡ some encoding
      → contents q ≡ empty_lines lines ++ (encoding ++ rest)
      → 0 < length ss
      → length ss < 9223372036854775808
      → All (λ s. length s < 9223372036854775808) ss
      → can_reserve (length ss) ≡ true
      → Decoded ss rest (decode bufs to_int64 can_reserve q)
  decode-encode conv q lines ss encoding rest en e h small smalls room =
      let shape = e ∙ ap (λ l. empty_lines lines ++ l) (encode-wire ss rest encoding en) in
      let enough : 2 ≤ length (contents q) = omega (
        arith,
        ap length shape,
        length-append (empty_lines lines) (wire ss rest),
        wire-length ss rest,
      ) in
      let trimmed = trimmed_lem q ∙ ap drop_crlf shape ∙ drop_crlf-wire lines ss rest in
      subst (Decoded ss rest) (sym (decode_trims q enough)) (
        trimmed_lem-All _ ss rest trimmed h room (conv (length ss) small) (
          All-map (λ s. length s < 9223372036854775808)
            (λ s. to_int64 (decimal (length s)) ≡ some (pos (length s))) (λ s. conv (length s)) ss
            smalls))
