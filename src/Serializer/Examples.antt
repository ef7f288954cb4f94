-- ===== src/Serializer/Examples.antt =====
-- Archives that are written and read.
use smyte_db.Prelude.{ℕ, ◌≡◌, List, [], ◌∷◌, ◌++◌, some, length, arith, codes, drop}
use smyte_db.Prelude.Int.{pos}
use smyte_db.Endian.{big_endian}
use smyte_db.Serializer.{get_int32, put_int32, get_string, put_string}
use smyte_db.Serializer.Roundtrip.{at, get_string-put_string}
use smyte_db.Serializer.Narrow.{get_int32-put_int32}

get_string-put_string_example :
    (out : List ℕ) × (put_string big_endian (codes "key") (1 ∷ 2 ∷ []) ≡ some out)
    × (get_string big_endian (at (drop 2 (out ++ (9 ∷ [])))) ≡ (codes "key", at (9 ∷ [])))
get_string-put_string_example =
    get_string-put_string big_endian (codes "key") (1 ∷ 2 ∷ []) (9 ∷ []) (omega arith)

get_int32-put_int32_example :
    (get_int32 big_endian (at (put_int32 big_endian (pos 7) [] ++ (9 ∷ [])))
      ≡ (pos 0, at (drop 4 (big_endian.store 8 (pos 7)) ++ (9 ∷ []))))
    × (length (drop 4 (big_endian.store 8 (pos 7))) ≡ 4)
get_int32-put_int32_example = get_int32-put_int32 big_endian 7 [] (9 ∷ []) (omega arith)
