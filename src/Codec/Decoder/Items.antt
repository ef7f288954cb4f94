-- ===== src/Codec/Decoder/Items.antt =====
-- The strings of a request in the loop of codec/RedisDecoder.cpp.
use smyte_db.Prelude.{
  ℕ, suc, ◌≡◌, ◌≢◌, ap, ◌∙◌, List, [], ◌∷◌, ◌++◌, length, Option, some, Bool, arith, All,
  append_assoc, append-nil,
}
use smyte_db.Prelude.Int.{ℤ, pos}
use smyte_db.Codec.Buffers.{Buffers}
use smyte_db.Codec.Value.{bulk_string_array}
use smyte_db.Codec.Value.Encode.{decimal, encode_bulk, encode_bulks}
use smyte_db.Codec.Decoder.{read_length, read_item, read_field, decode_items, finish, k_valid, item}
use smyte_db.Codec.Decoder.Fields.{length_line, read_length_lem, read_item_lem}

encode_bulk-line :
    (s more : List ℕ) → encode_bulk s ++ more ≡ length_line b'$' (length s) (s ++ 13 ∷ 10 ∷ more)
unfolding encode_bulk
encode_bulk-line s more = simp append_assoc

dollar_ne_cr : ◌≢◌ {A = ℕ} b'$' 13
dollar_ne_cr = omega arith

module _ (bufs : Buffers) (to_int64 : List ℕ → Option ℤ) (can_reserve : ℕ → Bool) where
  open bufs use {Queue, Cursor, bytes}

  items_step :
      (n : ℕ) (buf : Queue) (start c c₁ c₂ : Cursor) (s : List ℕ) (acc : List (List ℕ))
      → read_length bufs to_int64 can_reserve b'$' c ≡ (k_valid (pos (length s)), c₁)
      → read_item bufs to_int64 can_reserve buf start (pos (length s)) c₁ ≡ item s c₂
      → decode_items bufs to_int64 can_reserve (suc n) buf start c acc
        ≡ decode_items bufs to_int64 can_reserve n buf start c₂ (acc ++ s ∷ [])
  unfolding decode_items read_field
  items_step n buf start c c₁ c₂ s acc e₁ e₂ = rw (e₁, decode_items, read_field) (rw e₂)

  -- A round of decode's loop on a string of the request.
  item_round :
      (n : ℕ) (buf : Queue) (start c : Cursor) (s more : List ℕ) (acc : List (List ℕ))
      → bytes c ≡ encode_bulk s ++ more
      → to_int64 (decimal (length s)) ≡ some (pos (length s))
      → (d : Cursor) × (decode_items bufs to_int64 can_reserve (suc n) buf start c acc
          ≡ decode_items bufs to_int64 can_reserve n buf start d (acc ++ s ∷ []))
        × (bytes d ≡ more)
  item_round n buf start c s more acc e conv = with_length (
      read_length_lem bufs to_int64 can_reserve b'$' (length s) c (s ++ 13 ∷ 10 ∷ more) dollar_ne_cr
        (e ∙ encode_bulk-line s more) conv)
    where
      with_length :
          (c₁ : Cursor) × (read_length bufs to_int64 can_reserve b'$' c
              ≡ (k_valid (pos (length s)), c₁))
            × (bytes c₁ ≡ s ++ 13 ∷ 10 ∷ more)
          → (d : Cursor) × (decode_items bufs to_int64 can_reserve (suc n) buf start c acc
              ≡ decode_items bufs to_int64 can_reserve n buf start d (acc ++ s ∷ []))
            × (bytes d ≡ more)
      with_length (c₁, e₁, b₁) =
          let r = read_item_lem bufs to_int64 can_reserve buf start c₁ s more b₁ in
          (r.0, items_step n buf start c c₁ r.0 s acc e₁ r.1, r.2)

  -- decode's loop on the strings of a request.
  pub decode_items_lem :
      (ss acc : List (List ℕ)) (buf : Queue) (start c : Cursor) (rest : List ℕ)
      → All (λ s. to_int64 (decimal (length s)) ≡ some (pos (length s))) ss
      → bytes c ≡ encode_bulks ss ++ rest
      → (d : Cursor) × (decode_items bufs to_int64 can_reserve (length ss) buf start c acc
          ≡ finish bufs to_int64 can_reserve buf start d (bulk_string_array (acc ++ ss)))
        × (bytes d ≡ rest)
  unfolding encode_bulks
  decode_items_lem [] acc buf start c rest h e = unfold decode_items in (c, rw append-nil, e)
  decode_items_lem (s ∷ ss) acc buf start c rest h e =
      followed
        (item_round (length ss) buf start c s (encode_bulks ss ++ rest) acc
          (e ∙ append_assoc (encode_bulk s) (encode_bulks ss) rest) h.0)
        (λ d. decode_items_lem ss (acc ++ s ∷ []) buf start d rest h.1)
    where
      followed :
          (d : Cursor) × (decode_items bufs to_int64 can_reserve (suc (length ss)) buf start c acc
              ≡ decode_items bufs to_int64 can_reserve (length ss) buf start d (acc ++ s ∷ []))
            × (bytes d ≡ encode_bulks ss ++ rest)
          → ((d : Cursor)
              → bytes d ≡ encode_bulks ss ++ rest
              → (f : Cursor) × (decode_items bufs to_int64 can_reserve
                    (length ss)
                    buf
                    start
                    d
                    (acc ++ s ∷ [])
                  ≡ finish bufs to_int64 can_reserve buf start f
                      (bulk_string_array ((acc ++ s ∷ []) ++ ss)))
                × (bytes f ≡ rest))
          → (f : Cursor) × (decode_items bufs to_int64 can_reserve (suc (length ss)) buf start c acc
              ≡ finish bufs to_int64 can_reserve buf start f (bulk_string_array (acc ++ s ∷ ss)))
            × (bytes f ≡ rest)
      followed (d, e₁, b) ih =
          let r = ih d b in
          let strings = append_assoc acc (s ∷ []) ss in
          (
            r.0,
            e₁
                ∙ r.1
                ∙ ap (λ l. finish bufs to_int64 can_reserve buf start r.0 (bulk_string_array l))
                    strings,
            r.2,
          )
