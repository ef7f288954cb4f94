-- ===== src/Endian/Signed.antt =====
-- A number that fits in int64_t is read back from its 8 bytes.
use smyte_db.Prelude.{
  ◌≡◌, ap, ◌∙◌, ℕ, List, ◌++◌, take, drop, subst, take-length-append, drop-length-append,
}
use smyte_db.Prelude.Int.{ℤ, IsInt64, signed, signed-low_bits}
use smyte_db.Endian.{Endian}

module _ (e : Endian) where
  open e use {store, load, length-store, store-IsBytes, of_digits-store, load-signed}

  pub load-store : (x : ℤ) → IsInt64 x → load 8 (store 8 x) ≡ x
  load-store x h =
      load-signed 8 (store 8 x) (length-store 8 x) (store-IsBytes 8 x)
      ∙ ap (signed 64) (of_digits-store 8 x)
      ∙ signed-low_bits x h

  pub take-store : (k : ℕ) (x : ℤ) (rest : List ℕ) → take k (store k x ++ rest) ≡ store k x
  take-store k x rest =
      subst (λ n. take n (store k x ++ rest) ≡ store k x) (length-store k x)
        (take-length-append (store k x) rest)

  pub drop-store : (k : ℕ) (x : ℤ) (rest : List ℕ) → drop k (store k x ++ rest) ≡ rest
  drop-store k x rest =
      subst (λ n. drop n (store k x ++ rest) ≡ rest) (length-store k x)
        (drop-length-append (store k x) rest)
