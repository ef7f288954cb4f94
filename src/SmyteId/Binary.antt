-- ===== src/SmyteId/Binary.antt =====
-- The binary form of an id (asBinary, appendAsBinary and the two decoding constructors of
-- infra/SmyteId.h).
use smyte_db.Prelude.{
  ℕ, ◌+◌, ◌<◌, ◌≡◌, refl, ◌∙◌, List, length, arith, ltb, drop, drop-length-append, length-append,
}
use smyte_db.Prelude.Int.{pos, IsInt64}
use smyte_db.Endian.{Endian}
use smyte_db.Endian.Signed.{load-store}
use smyte_db.Endian.Order.{lex_lt, lex_lt-of_digits}
use smyte_db.SmyteId.{SmyteId, from_binary, as_binary, append_as_binary}

module _ (e : Endian) where
  open e use {store, load, length-store, store-IsBytes, of_digits-store, load-signed}

  -- An id in the range of int64_t, appended to any text, is 8 bytes behind that text, from which
  -- the id is read back.
  pub append_as_binary-from_binary :
      (id : SmyteId) (out : List ℕ)
      → IsInt64 id.smyte_id
      → (length (append_as_binary e id out) ≡ length out + 8)
        × (from_binary e (drop (length out) (append_as_binary e id out)) ≡ id)
  unfolding append_as_binary from_binary
  append_as_binary-from_binary id out h = (
    omega (arith, length-append out (store 8 id.smyte_id), length-store 8 id.smyte_id),
    rw (drop-length-append, load-store e id.smyte_id h) refl,
  )

  -- The binary forms of two non-negative ids in the range of int64_t are in lexicographic order
  -- exactly if the ids are in numerical order.
  pub as_binary-order :
      (m n : ℕ)
      → m < 9223372036854775808
      → n < 9223372036854775808
      → lex_lt
          (as_binary e (record { smyte_id = pos m }))
          (as_binary e (record { smyte_id = pos n }))
        ≡ ltb m n
  unfolding as_binary
  as_binary-order m n hm hn =
      lex_lt-of_digits (store 8 (pos m)) (store 8 (pos n))
        (omega (arith, length-store 8 (pos m), length-store 8 (pos n))) (store-IsBytes 8 (pos m))
        (store-IsBytes 8 (pos n))
      ∙ ground (arith, of_digits-store 8 (pos m), of_digits-store 8 (pos n))
