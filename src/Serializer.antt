-- ===== src/Serializer.antt =====
-- infra/serializer/Serializer.h. The buffer of a writing archive is a list of bytes, to which put
-- functions append; boost::endian is an argument, and `none` is a failed CHECK. Types that are
-- copied bit by bit stand for the bytes of their representation.
pub mod Roundtrip
pub mod Narrow
mod Examples
use smyte_db.Prelude.{
  ℕ, zero, suc, ◌*◌, List, [], ◌∷◌, ◌++◌, Bool, true, false, ◌&&◌, Option, none, some, length, leb,
  if◌then◌else◌, take, drop, replicate,
}
use smyte_db.Prelude.Int.{ℤ, pos}
use smyte_db.Endian.{Endian}

-- A reading archive: the bytes from data_ on, and success_.
pub record Archive : Type 0 where
  pub data_left : List ℕ
  pub success : Bool

unfoldable pub consume : ℕ → Archive → Option (List ℕ) × Archive
consume size a =
    if a.success && leb size (length a.data_left)
    then (some (take size a.data_left), record a { data_left = drop size a.data_left })
    else (none, record a { success = false })

-- BitSerializer: the empty value has zeros.
unfoldable pub get_bits : ℕ → Archive → List ℕ × Archive
unfolding consume
get_bits size a =
    let (data_read, a') = consume size a in
    (elim data_read [ none ↦ replicate size 0 | some bytes ↦ bytes ], a')

unfoldable pub put_bits : List ℕ → List ℕ → List ℕ
put_bits bytes buf = buf ++ bytes

-- So many elements of a size, as memcpy lays them out.
unfoldable pub elements : ℕ → ℕ → List ℕ → List (List ℕ)
elements size zero bytes = []
elements size (suc n) bytes = take size bytes ∷ elements size n (drop size bytes)

abbrev pub concat : List (List ℕ) → List ℕ
concat [] = []
concat (x ∷ xs) = x ++ concat xs

module _ (e : Endian) where
  open e use {store, load, load_unsigned}

  -- The read of a number, signed or not: its value, or 0 if the bytes do not suffice.
  unfoldable pub get_unsigned : ℕ → Archive → ℕ × Archive
  unfolding consume
  get_unsigned size a =
      let (data_read, a') = consume size a in
      (elim data_read [ none ↦ 0 | some bytes ↦ load_unsigned size bytes ], a')

  unfoldable pub get_signed : ℕ → Archive → ℤ × Archive
  unfolding consume
  get_signed size a =
      let (data_read, a') = consume size a in
      (elim data_read [ none ↦ pos 0 | some bytes ↦ load size bytes ], a')

  abbrev pub get_uint16 : Archive → ℕ × Archive
  get_uint16 a = get_unsigned 2 a

  abbrev pub put_uint16 : ℕ → List ℕ → List ℕ
  put_uint16 n buf = buf ++ store 2 (pos n)

  abbrev pub get_int32 : Archive → ℤ × Archive
  get_int32 a = get_signed 4 a

  -- The serializer of int32_t appends the 8 bytes of a big_int64_buf_t.
  abbrev pub put_int32 : ℤ → List ℕ → List ℕ
  put_int32 n buf = buf ++ store 8 n

  abbrev pub get_int64 : Archive → ℤ × Archive
  get_int64 a = get_signed 8 a

  abbrev pub put_int64 : ℤ → List ℕ → List ℕ
  put_int64 n buf = buf ++ store 8 n

  abbrev pub get_uint64 : Archive → ℕ × Archive
  get_uint64 a = get_unsigned 8 a

  abbrev pub put_uint64 : ℕ → List ℕ → List ℕ
  put_uint64 n buf = buf ++ store 8 (pos n)

  unfoldable pub get_string : Archive → List ℕ × Archive
  get_string a =
      let (len, a') = get_uint16 a in
      let (data_read, a'') = consume len a' in
      (elim data_read [ none ↦ [] | some bytes ↦ bytes ], a'')

  unfoldable pub put_string : List ℕ → List ℕ → Option (List ℕ)
  put_string value buf =
      if leb (length value) 65535 then some (put_uint16 (length value) buf ++ value) else none

  -- A vector of elements of a size.
  unfoldable pub get_vector : ℕ → Archive → List (List ℕ) × Archive
  unfolding elements
  get_vector element_size a =
      let (size, a') = get_uint16 a in
      let (data_read, a'') = consume (element_size * size) a' in
      (elim data_read [ none ↦ [] | some bytes ↦ elements element_size size bytes ], a'')

  unfoldable pub put_vector : List (List ℕ) → List ℕ → Option (List ℕ)
  put_vector distances buf =
      if leb (length distances) 65535
      then some (put_uint16 (length distances) buf ++ concat distances)
      else none
