-- ===== src/Prelude/Int.antt =====
-- Signed integers over the native numbers, under the library's names, with the operators of C++
-- on `int64_t` as long as the result fits: `%` truncates towards zero, `>>` and `&` act on the
-- two's complement. The sections that use them state the bounds.
use Prim.Native.Nat.{ℕ, suc, ◌+◌, ◌-◌, ◌*◌, ◌/◌, ◌%◌, ◌^◌, ◌≤◌, ◌<◌}
use mathlib.Core.Path.{◌≡◌}
use mathlib.Core.Bool.{Bool, true, false}
use native.Mathlib.Omega.{arith}
use smyte_db.Prelude.Tests.{ltb, leb, if◌then◌else◌, ◌==◌}

-- `negsuc n` is -(n + 1).
pub data ℤ : Type 0 where
  pos : ℕ → ℤ
  negsuc : ℕ → ℤ

abbrev pub pos_part : ℤ → ℕ
pos_part (pos n) = n
pos_part (negsuc n) = 0

abbrev pub neg_part : ℤ → ℕ
neg_part (pos n) = 0
neg_part (negsuc n) = suc n

-- a - b, as an integer.
abbrev pub sub_ℕ : ℕ → ℕ → ℤ
sub_ℕ a b = if leb b a then pos (a - b) else negsuc (b - a - 1)

infixl 65 ◌+ℤ◌ ◌-ℤ◌
infix 50 ◌≤ℤ◌
abbrev pub ◌+ℤ◌ : ℤ → ℤ → ℤ
a +ℤ b = sub_ℕ (pos_part a + pos_part b) (neg_part a + neg_part b)

abbrev pub ◌-ℤ◌ : ℤ → ℤ → ℤ
a -ℤ b = sub_ℕ (pos_part a + neg_part b) (neg_part a + pos_part b)

abbrev pub ◌≤ℤ◌ : ℤ → ℤ → Type 0
a ≤ℤ b = pos_part a + neg_part b ≤ pos_part b + neg_part a

abbrev pub ltb_ℤ : ℤ → ℤ → Bool
ltb_ℤ a b = ltb (pos_part a + neg_part b) (pos_part b + neg_part a)

abbrev pub leb_ℤ : ℤ → ℤ → Bool
leb_ℤ a b = leb (pos_part a + neg_part b) (pos_part b + neg_part a)

abbrev pub eqb_ℤ : ℤ → ℤ → Bool
eqb_ℤ (pos a) (pos b) = a == b
eqb_ℤ (pos a) (negsuc b) = false
eqb_ℤ (negsuc a) (pos b) = false
eqb_ℤ (negsuc a) (negsuc b) = a == b

pub eqb_ℤ-sound : (a b : ℤ) → eqb_ℤ a b ≡ true → a ≡ b
eqb_ℤ-sound a b h = ground arith

-- `a << k`
abbrev pub shl : ℤ → ℕ → ℤ
shl a k = sub_ℕ (pos_part a * 2 ^ k) (neg_part a * 2 ^ k)

-- `a >> k`, which rounds down
abbrev pub shr : ℤ → ℕ → ℤ
shr (pos n) k = pos (n / 2 ^ k)
shr (negsuc n) k = negsuc (n / 2 ^ k)

-- `a % m`, whose sign is that of `a`
abbrev pub rem : ℤ → ℕ → ℤ
rem (pos n) m = pos (n % m)
rem (negsuc n) m = sub_ℕ 0 (suc n % m)

-- `a & (2^k - 1)`, and so the value of `a` as a `k`-bit unsigned word
abbrev pub low_bits : ℤ → ℕ → ℕ
low_bits (pos n) k = n % 2 ^ k
low_bits (negsuc n) k = 2 ^ k - 1 - n % 2 ^ k

-- The signed value of a `k`-bit word.
abbrev pub signed : ℕ → ℕ → ℤ
signed k n = if ltb n (2 ^ (k - 1)) then pos n else negsuc (2 ^ k - 1 - n)

-- The range of `int64_t`.
abbrev pub IsInt64 : ℤ → Type 0
IsInt64 (pos n) = n < 2 ^ 63
IsInt64 (negsuc n) = n < 2 ^ 63

pub signed-low_bits : (a : ℤ) → IsInt64 a → signed 64 (low_bits a 64) ≡ a
signed-low_bits (pos n) h = ground arith
signed-low_bits (negsuc n) h = ground arith

pub signed-IsInt64 : (n : ℕ) → n < 2 ^ 64 → IsInt64 (signed 64 n)
signed-IsInt64 n h = ground arith
