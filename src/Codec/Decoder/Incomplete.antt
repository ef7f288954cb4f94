-- ===== src/Codec/Decoder/Incomplete.antt =====
-- What codec/RedisDecoder.cpp does when bytes are missing.
use smyte_db.Prelude.{
  ℕ, zero, suc, ◌+◌, ◌-◌, ◌≤◌, ◌<◌, ◌≡◌, refl, sym, ap, ◌∙◌, List, [], ◌∷◌, ◌++◌, Option, none,
  some, Bool, true, false, ltb, ◌==◌, arith, Bool-cases, inl, inr,
}
use smyte_db.Prelude.Int.{ℤ, pos, negsuc}
use smyte_db.Codec.Buffers.{Buffers, Terminated, found, out_of_range, other_exception}
use smyte_db.Codec.Value.{RedisValue}
use smyte_db.Codec.Decoder.{
  read_length, after_field, to_length, read_text, read_line_end, read_item, read_field,
  decode_items, decode_array, decode_trimmed, decode, finish, k_valid, k_invalid,
  k_more_bytes_needed, LengthField, Item, stop, item, incomplete, Outcome, field_digits,
}
use smyte_db.Codec.Decoder.Noise.{drop_crlf, short-drop_crlf}
use smyte_db.Codec.Decoder.Roundtrip.{trimmed_lem, decode_trims}

-- A length field that is not complete misses at least a byte.
abbrev MissesSome : LengthField → Type 0
MissesSome (k_more_bytes_needed k) = 0 < k
MissesSome _ = Unit

positive : (n : ℕ) → ltb n 2 ≡ true → 0 < 2 - n
positive n h = ground arith

short_size : (n : ℕ) → ltb n 2 ≡ true → n < 2
short_size n h = ground arith

long_size : (n : ℕ) → ltb n 2 ≡ false → 2 ≤ n
long_size n h = ground arith

module _ (bufs : Buffers) (to_int64 : List ℕ → Option ℤ) (can_reserve : ℕ → Bool) where
  open bufs use {
    Queue, Cursor, contents, total_length, front, chain_length, chain_length_lem, read,
    read_terminated_string,
  }

  to_length_misses : (o : Option (List ℕ)) → MissesSome (to_length bufs to_int64 can_reserve o)
  to_length_misses none = tt
  to_length_misses (some ds) = converted (to_int64 ds)
    where
      converted : (r : Option ℤ) → MissesSome (elim r [ none ↦ k_invalid | some n ↦ k_valid n ])
      converted none = tt
      converted (some n) = tt

  after_field_misses :
      (t : ℕ) (field : List ℕ) (c : Cursor)
      → MissesSome (after_field bufs to_int64 can_reserve t field c).0
  unfolding after_field
  after_field_misses t field c = elim (Bool-cases (total_length c == 0)) [
    | inl none_left ↦ rw none_left (omega arith)
    | inr some_left ↦ rw some_left (elim (Bool-cases ((read c).0 == 10)) [
      | inl lf ↦ rw lf (to_length_misses (field_digits t field))
      | inr other ↦ rw other tt
    ])
  ]

  searched_misses :
      (t : ℕ) (c : Cursor) (r : Terminated Cursor)
      → read_terminated_string 13 c ≡ r
      → ltb (total_length c) 2 ≡ false
      → MissesSome (read_length bufs to_int64 can_reserve t c).0
  unfolding read_length
  searched_misses t c (found s d) e h = rw h (rw (e, read_length) (after_field_misses t s d))
  searched_misses t c out_of_range e h = rw h (rw (e, read_length) (omega arith))
  searched_misses t c other_exception e h = rw h (rw (e, read_length) tt)

  read_length_misses :
      (t : ℕ) (c : Cursor) → MissesSome (read_length bufs to_int64 can_reserve t c).0
  read_length_misses t c = elim (Bool-cases (ltb (total_length c) 2)) [
    | inl few ↦ unfold read_length in rw few (ground arith)
    | inr many ↦ searched_misses t c (read_terminated_string 13 c) refl many
  ]

  -- An incomplete outcome misses at least a byte, and comes with the queue as it was.
  abbrev Keeps : Queue → Outcome × Queue → Type 0
  Keeps buf r = (k : ℕ) → r.0 ≡ incomplete k → (0 < k) × (r.1 ≡ buf)

  abbrev ItemKeeps : Queue → Item Queue Cursor → Type 0
  ItemKeeps buf (stop r) = Keeps buf r
  ItemKeeps buf (item s c) = Unit

  finish-Keeps :
      (q buf : Queue) (start c : Cursor) (v : RedisValue)
      → Keeps q (finish bufs to_int64 can_reserve buf start c v)
  unfolding finish
  finish-Keeps q buf start c v k e = absurd (cc)

  incomplete-Keeps : (q : Queue) (n : ℕ) → 0 < n → Keeps q (incomplete n, q)
  incomplete-Keeps q n h k e = ground arith

  read_line_end_keeps :
      (q : Queue) (start : Cursor) (r : List ℕ × Cursor)
      → ItemKeeps q (read_line_end bufs to_int64 can_reserve q start r)
  unfolding read_line_end
  read_line_end_keeps q start (s, c) = elim (Bool-cases (ltb (total_length c) 2)) [
    | inl few ↦ rw few (incomplete-Keeps q 2 (omega arith))
    | inr many ↦ rw many (elim (Bool-cases ((read c).0 == 13)) [
      | inr other ↦ rw other (finish-Keeps q q start (read c).1 _)
      | inl cr ↦ rw cr (elim (Bool-cases ((read (read c).1).0 == 10)) [
        | inl lf ↦ rw lf tt
        | inr other ↦ rw other (finish-Keeps q q start (read (read c).1).1 _)
      ])
    ])
  ]

  read_item_keeps :
      (q : Queue) (start : Cursor) (n : ℤ) (c : Cursor)
      → ItemKeeps q (read_item bufs to_int64 can_reserve q start n c)
  unfolding read_item
  read_item_keeps q start (negsuc n) c = finish-Keeps q q start c _
  read_item_keeps q start (pos n) c = elim (Bool-cases (ltb (total_length c) (n + 2))) [
    | inl few ↦ rw few (incomplete-Keeps q _ (ground arith))
    | inr many ↦ rw many (read_line_end_keeps q start (read_text bufs to_int64 can_reserve n c))
  ]

  read_field_keeps :
      (q : Queue) (start : Cursor) (r : LengthField × Cursor)
      → MissesSome r.0
      → ItemKeeps q (read_field bufs to_int64 can_reserve q start r)
  unfolding read_field
  read_field_keeps q start (k_invalid, c) h = finish-Keeps q q start c _
  read_field_keeps q start (k_more_bytes_needed k, c) h = incomplete-Keeps q k h
  read_field_keeps q start (k_valid n, c) h = read_item_keeps q start n c

  decode_items-Keeps :
      (n : ℕ) (q : Queue) (start c : Cursor) (ss : List (List ℕ))
      → Keeps q (decode_items bufs to_int64 can_reserve n q start c ss)
  unfolding decode_items
  decode_items-Keeps zero q start c ss = finish-Keeps q q start c _
  decode_items-Keeps (suc n) q start c ss =
      round
        (read_field bufs to_int64 can_reserve q start
          (read_length bufs to_int64 can_reserve b'$' c))
        (read_field_keeps q start (read_length bufs to_int64 can_reserve b'$' c)
          (read_length_misses b'$' c))
        (λ d s. decode_items-Keeps n q start d (ss ++ s ∷ []))
    where
      round :
          (i : Item Queue Cursor)
          → ItemKeeps q i
          → ((d : Cursor) (s : List ℕ)
              → Keeps q (decode_items bufs to_int64 can_reserve n q start d (ss ++ s ∷ [])))
          → Keeps q (elim i [
            | stop r ↦ r
            | item s d ↦ decode_items bufs to_int64 can_reserve n q start d (ss ++ s ∷ [])
          ])
      round (stop r) h ih = h
      round (item s d) h ih = ih d s

  decode_array-Keeps :
      (q : Queue) (start : Cursor) (r : LengthField × Cursor)
      → MissesSome r.0
      → Keeps q (decode_array bufs to_int64 can_reserve q start r)
  unfolding decode_array
  decode_array-Keeps q start (k_invalid, c) h = finish-Keeps q q start c _
  decode_array-Keeps q start (k_more_bytes_needed k, c) h = incomplete-Keeps q k h
  decode_array-Keeps q start (k_valid (negsuc n), c) h = finish-Keeps q q start c _
  decode_array-Keeps q start (k_valid (pos n), c) h = elim (Bool-cases (n == 0)) [
    | inl zero_length ↦ rw zero_length (finish-Keeps q q start c _)
    | inr some_length ↦ rw some_length (elim (Bool-cases (can_reserve n)) [
      | inl fits ↦ rw fits (decode_items-Keeps n q start c [])
      | inr fails ↦ rw fails (λ k e. absurd (cc))
    ])
  ]

  decode_trimmed-Keeps : (q : Queue) → Keeps q (decode_trimmed bufs to_int64 can_reserve q)
  unfolding decode_trimmed
  decode_trimmed-Keeps q = elim (Bool-cases (chain_length q == 0)) [
    | inl empty ↦ rw empty (incomplete-Keeps q 2 (omega arith))
    | inr full ↦ rw full (decode_array-Keeps q (front q) _ (read_length_misses b'*' (front q)))
  ]

  decode_short :
      (q : Queue)
      → ltb (chain_length q) 2 ≡ true
      → decode bufs to_int64 can_reserve q ≡ (incomplete (2 - chain_length q), q)
  unfolding decode
  decode_short q h = rw h

  -- Whatever the bytes and the buffers: when decode returns false, it asks for at least one more
  -- byte, and the queue holds what it held, without the empty lines at its front.
  pub decode_incomplete :
      (q : Queue) (k : ℕ)
      → (decode bufs to_int64 can_reserve q).0 ≡ incomplete k
      → (0 < k) × (contents (decode bufs to_int64 can_reserve q).1 ≡ drop_crlf (contents q))
  decode_incomplete q k e = elim (Bool-cases (ltb (chain_length q) 2)) [
    | inl few ↦
        let r = decode_short q few in
        let kept =
          incomplete-Keeps q (2 - chain_length q) (positive (chain_length q) few) k
            (ap (λ p. p.0) (sym r) ∙ e) in
        let size = short_size (chain_length q) few in
        (
          kept.0,
          ap (λ p. contents p.1) r
              ∙ sym (short-drop_crlf (contents q) (omega (arith, size, chain_length_lem q))),
        )
    | inr many ↦
        let r =
          decode_trims bufs to_int64 can_reserve q
            (omega (arith, long_size (chain_length q) many, chain_length_lem q)) in
        let kept = decode_trimmed-Keeps _ k (ap (λ p. p.0) (sym r) ∙ e) in
        (
          kept.0,
          ap (λ p. contents p.1) r ∙ ap contents kept.1 ∙ trimmed_lem bufs to_int64 can_reserve q,
        )
  ]
