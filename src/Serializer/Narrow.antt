-- ===== src/Serializer/Narrow.antt =====
-- The serializer of int32_t in infra/serializer/Serializer.h.
use smyte_db.Prelude.{
  ℕ, zero, suc, ◌*◌, ◌<◌, ◌≤◌, ◌≡◌, refl, sym, ap, ◌∙◌, List, [], ◌∷◌, ◌++◌, length, arith, take,
  drop, append_assoc, length-take, length-drop,
}
use smyte_db.Prelude.Int.{pos, signed, low_bits}
use smyte_db.Endian.{Endian, IsBytes, of_digits, digits_from, digits_from-append}
use smyte_db.Serializer.{get_int32, put_int32, get_signed}
use smyte_db.Serializer.Roundtrip.{at, behind, consume-at_size}

-- Four more digits shift the number that stands before them.
four_places : (a : ℕ) (bs : List ℕ) → length bs ≡ 4 → a * 4294967296 ≤ digits_from a bs
four_places a [] h = absurd (omega arith)
four_places a (b ∷ []) h = absurd (omega arith)
four_places a (b ∷ c ∷ []) h = absurd (omega arith)
four_places a (b ∷ c ∷ d ∷ []) h = absurd (omega arith)
four_places a (b ∷ c ∷ d ∷ f ∷ []) h = omega arith
four_places a (b ∷ c ∷ d ∷ f ∷ g ∷ bs) h = absurd (omega arith)

take-drop : (n : ℕ) (xs : List ℕ) → take n xs ++ drop n xs ≡ xs
take-drop zero xs = refl
take-drop (suc n) [] = refl
take-drop (suc n) (x ∷ xs) = ap (λ l. x ∷ l) (take-drop n xs)

take-IsBytes : (n : ℕ) (xs : List ℕ) → IsBytes xs → IsBytes (take n xs)
take-IsBytes zero xs h = tt
take-IsBytes (suc n) [] h = tt
take-IsBytes (suc n) (x ∷ xs) (h, hs) = (h, take-IsBytes n xs hs)

module _ (e : Endian) where
  open e use {store, load, length-store, store-IsBytes, of_digits-store, load-signed}

  length_high : (n : ℕ) → length (take 4 (store 8 (pos n))) ≡ 4
  length_high n = omega (arith, length-take 4 (store 8 (pos n)), length-store 8 (pos n))

  -- The upper half of a small number has no digit but 0.
  high_zero : (n : ℕ) → n < 2147483648 → of_digits (take 4 (store 8 (pos n))) ≡ 0
  high_zero n h =
      let whole : digits_from (of_digits (take 4 (store 8 (pos n)))) (drop 4 (store 8 (pos n)))
          ≡ low_bits (pos n) 64 =
        sym (digits_from-append 0 (take 4 (store 8 (pos n))) (drop 4 (store 8 (pos n))))
        ∙ ap of_digits (take-drop 4 (store 8 (pos n)))
        ∙ of_digits-store 8 (pos n) in
      let low : length (drop 4 (store 8 (pos n))) ≡ 4 =
        omega (arith, length-drop 4 (store 8 (pos n)), length-store 8 (pos n)) in
      omega (
        arith,
        whole,
        four_places (of_digits (take 4 (store 8 (pos n)))) (drop 4 (store 8 (pos n))) low,
      )

  load_high : (n : ℕ) → n < 2147483648 → load 4 (take 4 (store 8 (pos n))) ≡ pos 0
  load_high n h =
      load-signed 4 (take 4 (store 8 (pos n))) (length_high n)
        (take-IsBytes 4 (store 8 (pos n)) (store-IsBytes 8 (pos n)))
      ∙ ap (signed 32) (high_zero n h)

  -- A non-negative int32_t does not come back: behind the buffer it was appended to, 0 is read in
  -- its place, and the lower half of the 8 bytes that were appended is left in front of what follows.
  pub get_int32-put_int32 :
      (n : ℕ) (buf rest : List ℕ)
      → n < 2147483648
      → (get_int32 e (at (drop (length buf) (put_int32 e (pos n) buf ++ rest)))
          ≡ (pos 0, at (drop 4 (store 8 (pos n)) ++ rest)))
        × (length (drop 4 (store 8 (pos n))) ≡ 4)
  unfolding get_signed
  get_int32-put_int32 n buf rest h = (
    rw (behind buf (store 8 (pos n)) rest) (
        rw (split n rest) (
          rw
            (consume-at_size 4 (take 4 (store 8 (pos n))) (drop 4 (store 8 (pos n)) ++ rest)
              (length_high n))
            (ap (λ x. (x, at (drop 4 (store 8 (pos n)) ++ rest))) (load_high n h)))),
    omega (arith, length-drop 4 (store 8 (pos n)), length-store 8 (pos n)),
  )
    where
      split :
          (n : ℕ) (rest : List ℕ)
          → store 8 (pos n) ++ rest ≡ take 4 (store 8 (pos n)) ++ (drop 4 (store 8 (pos n)) ++ rest)
      split n rest =
          ap (λ l. l ++ rest) (sym (take-drop 4 (store 8 (pos n))))
          ∙ append_assoc (take 4 (store 8 (pos n))) (drop 4 (store 8 (pos n))) rest
