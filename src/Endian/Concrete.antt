-- ===== src/Endian/Concrete.antt =====
-- A concrete big-endian layout.
use native.Mathlib.Numerals.{towards_suc}
use native.Mathlib.Nat.{mod-lt, pow-suc}
use smyte_db.Prelude.{
  ℕ, zero, suc, ◌+◌, ◌*◌, ◌/◌, ◌%◌, ◌^◌, ◌<◌, ◌≡◌, refl, List, [], ◌∷◌, ◌++◌, arith, length,
  All-append, length-append,
}
use smyte_db.Prelude.Int.{ℤ, pos, negsuc, low_bits}
use smyte_db.Endian.Digits.{IsByte, IsBytes, of_digits, digits_from-append}

abbrev pub digits : ℕ → ℕ → List ℕ
digits zero n = []
digits (suc k) n = digits k (n / 256) ++ (n % 256 ∷ [])

pub length-digits : (k n : ℕ) → length (digits k n) ≡ k
length-digits zero n = refl
length-digits (suc k) n =
    omega (arith, length-append (digits k (n / 256)) (n % 256 ∷ []), length-digits k (n / 256))

pub digits-IsBytes : (k n : ℕ) → IsBytes (digits k n)
digits-IsBytes zero n = tt
digits-IsBytes (suc k) n =
    All-append IsByte (digits k (n / 256)) (n % 256 ∷ []) (digits-IsBytes k (n / 256))
      (omega arith, tt)

pub pow-bytes : (k : ℕ) → 2 ^ (8 * suc k) ≡ 256 * 2 ^ (8 * k)
pow-bytes k = let e : 8 * suc k ≡ 8 * k + 8 = omega arith in rw e (simp towards_suc (omega arith))

pub pow-pos : (k : ℕ) → 0 < 2 ^ k
pow-pos zero = omega arith
pow-pos (suc k) = let h : 0 < 2 ^ k = pow-pos k in rw pow-suc (omega arith)

pub of_digits-digits : (k n : ℕ) → n < 2 ^ (8 * k) → of_digits (digits k n) ≡ n
of_digits-digits zero n h = omega arith
of_digits-digits (suc k) n h =
    rw digits_from-append (omega (arith, of_digits-digits k (n / 256) (omega (arith, pow-bytes k))))

pub low_bits-lt : (x : ℤ) (k : ℕ) → low_bits x k < 2 ^ k
low_bits-lt (pos n) k = grind (arith, mod-lt, pow-pos k)
low_bits-lt (negsuc n) k = omega (arith, pow-pos k)
