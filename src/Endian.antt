-- ===== src/Endian.antt =====
-- `boost::endian`, which the program only calls: `big_int64_buf_t`, `big_int16_buf_t` and
-- `load_big_endian` (used in infra/SmyteId.h, infra/ScheduledTask.h and
-- infra/serializer/Serializer.h) are the fields of a record. Its laws are what boost documents: the
-- bytes of a buffer are the base-256 digits of the value's two's complement, most significant
-- first, and a load reads as many of them as the type has bytes.
pub mod Order
pub mod Signed
mod Concrete
mod Digits
pub use Digits.{IsByte, IsBytes, of_digits, digits_from, digits_from-append, digits_from-lt}
pub use Concrete.*
use smyte_db.Prelude.{ℕ, ◌*◌, ◌≡◌, refl, List, length}
use smyte_db.Prelude.Int.{ℤ, low_bits, signed}

pub record Endian : Type 0 where
  -- the bytes of a big-endian buffer of so many bytes
  pub store : ℕ → ℤ → List ℕ
  -- `load_big_endian` at a signed and at an unsigned type of so many bytes
  pub load : ℕ → List ℕ → ℤ
  pub load_unsigned : ℕ → List ℕ → ℕ
  pub length-store : (k : ℕ) (x : ℤ) → length (store k x) ≡ k
  pub store-IsBytes : (k : ℕ) (x : ℤ) → IsBytes (store k x)
  pub of_digits-store : (k : ℕ) (x : ℤ) → of_digits (store k x) ≡ low_bits x (8 * k)
  pub load-signed :
      (k : ℕ) (bs : List ℕ) → length bs ≡ k → IsBytes bs → load k bs ≡ signed (8 * k) (of_digits bs)
  pub load_unsigned-of_digits :
      (k : ℕ) (bs : List ℕ) → length bs ≡ k → IsBytes bs → load_unsigned k bs ≡ of_digits bs

-- The layout exists.
abbrev pub big_endian : Endian
big_endian = record {
  store = λ k x. Concrete.digits k (low_bits x (8 * k));
  load = λ k bs. signed (8 * k) (of_digits bs);
  load_unsigned = λ k bs. of_digits bs;
  length-store = λ k x. length-digits k (low_bits x (8 * k));
  store-IsBytes = λ k x. digits-IsBytes k (low_bits x (8 * k));
  of_digits-store = λ k x. of_digits-digits k (low_bits x (8 * k)) (low_bits-lt x (8 * k));
  load-signed = λ k bs l b. refl;
  load_unsigned-of_digits = λ k bs l b. refl;
}
