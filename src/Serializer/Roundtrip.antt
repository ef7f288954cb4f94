-- ===== src/Serializer/Roundtrip.antt =====
-- What infra/serializer/Serializer.h writes is read back.
use native.Mathlib.Nat.{mod-eq_of_lt}
use smyte_db.Prelude.{
  ℕ, ◌*◌, ◌^◌, ◌<◌, ◌≡◌, refl, ap, ◌∙◌, List, [], ◌∷◌, ◌++◌, true, some, length, leb, arith, All,
  take, drop, length-append, take-length-append, drop-length-append, subst, append_assoc,
}
use smyte_db.Prelude.Int.{ℤ, pos, IsInt64}
use smyte_db.Endian.{Endian}
use smyte_db.Endian.Signed.{load-store}
use smyte_db.Serializer.{
  Archive, consume, elements, concat, get_unsigned, get_signed, get_uint16, put_uint16, get_int64,
  put_int64, get_uint64, put_uint64, get_string, put_string, get_vector, put_vector,
}

-- A reader in front of some bytes.
abbrev pub at : List ℕ → Archive
at bytes = record { data_left = bytes; success = true }

pub consume-at :
    (bytes rest : List ℕ) → consume (length bytes) (at (bytes ++ rest)) ≡ (some bytes, at rest)
unfolding consume
consume-at bytes rest =
    let l : leb (length bytes) (length (bytes ++ rest)) ≡ true =
      ground (arith, length-append bytes rest) in
    rw l (rw (take-length-append bytes rest, drop-length-append bytes rest) refl)

pub consume-at_size :
    (n : ℕ) (bytes rest : List ℕ)
    → length bytes ≡ n
    → consume n (at (bytes ++ rest)) ≡ (some bytes, at rest)
consume-at_size n bytes rest h =
    subst (λ n. consume n (at (bytes ++ rest)) ≡ (some bytes, at rest)) h (consume-at bytes rest)

elements-concat :
    (size : ℕ) (xs : List (List ℕ))
    → All (λ x. length x ≡ size) xs
    → elements size (length xs) (concat xs) ≡ xs
unfolding elements
elements-concat size [] h = refl
elements-concat size (x ∷ xs) (h, hs) =
    let t : take size (x ++ concat xs) ≡ x =
      subst (λ n. take n (x ++ concat xs) ≡ x) h (take-length-append x (concat xs)) in
    let d : drop size (x ++ concat xs) ≡ concat xs =
      subst (λ n. drop n (x ++ concat xs) ≡ concat xs) h (drop-length-append x (concat xs)) in
    rw (t, d) (ap (λ l. x ∷ l) (elements-concat size xs hs))

length-concat :
    (size : ℕ) (xs : List (List ℕ))
    → All (λ x. length x ≡ size) xs
    → length (concat xs) ≡ size * length xs
length-concat size [] h = omega arith
length-concat size (x ∷ xs) (h, hs) =
    length-append x (concat xs) ∙ (omega (arith, length-concat size xs hs))

-- What is appended to a buffer and followed by more bytes, behind that buffer.
pub behind : (buf bytes rest : List ℕ) → drop (length buf) ((buf ++ bytes) ++ rest) ≡ bytes ++ rest
behind buf bytes rest =
    ap (drop (length buf)) (append_assoc buf bytes rest) ∙ drop-length-append buf (bytes ++ rest)

module _ (e : Endian) where
  open e use {
    store, load, load_unsigned, length-store, store-IsBytes, of_digits-store,
    load_unsigned-of_digits,
  }

  load_unsigned-store : (k n : ℕ) → n < 2 ^ (8 * k) → load_unsigned k (store k (pos n)) ≡ n
  load_unsigned-store k n h =
      load_unsigned-of_digits k (store k (pos n)) (length-store k (pos n)) (store-IsBytes k (pos n))
      ∙ of_digits-store k (pos n)
      ∙ mod-eq_of_lt h

  get_unsigned-store :
      (k n : ℕ) (rest : List ℕ)
      → n < 2 ^ (8 * k)
      → get_unsigned e k (at (store k (pos n) ++ rest)) ≡ (n, at rest)
  unfolding get_unsigned
  get_unsigned-store k n rest h =
      rw (consume-at_size k (store k (pos n)) rest (length-store k (pos n)))
        (ap (λ x. (x, at rest)) (load_unsigned-store k n h))

  get_signed-store :
      (x : ℤ) (rest : List ℕ) → IsInt64 x → get_signed e 8 (at (store 8 x ++ rest)) ≡ (x, at rest)
  unfolding get_signed
  get_signed-store x rest h =
      rw (consume-at_size 8 (store 8 x) rest (length-store 8 x))
        (ap (λ x. (x, at rest)) (load-store e x h))

  -- A uint16_t, an int64_t and a uint64_t, appended to any buffer and followed by any bytes, are read
  -- back behind that buffer, and the bytes that follow are left.
  pub numbers_roundtrip :
      (n : ℕ) (x : ℤ) (u : ℕ) (buf rest : List ℕ)
      → n < 65536
      → IsInt64 x
      → u < 18446744073709551616
      → (get_uint16 e (at (drop (length buf) (put_uint16 e n buf ++ rest))) ≡ (n, at rest))
        × (get_int64 e (at (drop (length buf) (put_int64 e x buf ++ rest))) ≡ (x, at rest))
        × (get_uint64 e (at (drop (length buf) (put_uint64 e u buf ++ rest))) ≡ (u, at rest))
  numbers_roundtrip n x u buf rest hn hx hu = (
    rw (behind buf (store 2 (pos n)) rest) (get_unsigned-store 2 n rest hn),
    rw (behind buf (store 8 x) rest) (get_signed-store x rest hx),
    rw (behind buf (store 8 (pos u)) rest) (get_unsigned-store 8 u rest hu),
  )

  get_string-bytes :
      (value rest : List ℕ)
      → length value < 65536
      → get_string e (at (store 2 (pos (length value)) ++ (value ++ rest))) ≡ (value, at rest)
  unfolding get_string
  get_string-bytes value rest h =
      rw (get_unsigned-store 2 (length value) (value ++ rest) h) (rw (consume-at value rest) refl)

  get_vector-bytes :
      (size : ℕ) (xs : List (List ℕ)) (rest : List ℕ)
      → length xs < 65536
      → All (λ x. length x ≡ size) xs
      → get_vector e size (at (store 2 (pos (length xs)) ++ (concat xs ++ rest))) ≡ (xs, at rest)
  unfolding get_vector
  get_vector-bytes size xs rest h hs = rw (get_unsigned-store 2 (length xs) (concat xs ++ rest) h) (
      rw (consume-at_size (size * length xs) (concat xs) rest (length-concat size xs hs)) (
        rw (get_unsigned-store 2 (length xs) (concat xs ++ rest) h, elements-concat size xs hs)
          refl))

  -- A counted text behind a buffer, as put writes it.
  counted :
      (buf n bytes rest : List ℕ)
      → drop (length buf) (((buf ++ n) ++ bytes) ++ rest) ≡ n ++ (bytes ++ rest)
  counted buf n bytes rest =
      ap (λ l. drop (length buf) (l ++ rest)) (append_assoc buf n bytes)
      ∙ behind buf (n ++ bytes) rest
      ∙ append_assoc n bytes rest

  fits : (n : ℕ) → n < 65536 → leb n 65535 ≡ true
  fits n h = ground arith

  -- A string of less than 65536 bytes can be appended to any buffer; followed by any bytes, it is read
  -- back behind that buffer, and the bytes that follow are left.
  pub get_string-put_string :
      (value buf rest : List ℕ)
      → length value < 65536
      → (out : List ℕ) × (put_string e value buf ≡ some out)
        × (get_string e (at (drop (length buf) (out ++ rest))) ≡ (value, at rest))
  unfolding put_string
  get_string-put_string value buf rest h = (
    put_uint16 e (length value) buf ++ value,
    rw (fits (length value) h) refl,
    rw (counted buf (store 2 (pos (length value))) value rest) (get_string-bytes value rest h),
  )

  -- A vector of less than 65536 elements of one size, appended to any buffer and followed by any
  -- bytes, is read back element by element, and the bytes that follow are left.
  pub get_vector-put_vector :
      (size : ℕ) (xs : List (List ℕ)) (buf rest : List ℕ)
      → length xs < 65536
      → All (λ x. length x ≡ size) xs
      → (out : List ℕ) × (put_vector e xs buf ≡ some out)
        × (get_vector e size (at (drop (length buf) (out ++ rest))) ≡ (xs, at rest))
  unfolding put_vector
  get_vector-put_vector size xs buf rest h hs = (
    put_uint16 e (length xs) buf ++ concat xs,
    rw (fits (length xs) h) refl,
    rw (counted buf (store 2 (pos (length xs))) (concat xs) rest)
        (get_vector-bytes size xs rest h hs),
  )
