-- ===== src/Codec/Value/Decimal.antt =====
-- The decimal numbers that RedisValue::encode prints.
use smyte_db.Prelude.{
  ℕ, zero, suc, ◌+◌, ◌-◌, ◌∙◌, ◌*◌, ◌/◌, ◌%◌, ◌<◌, ◌≤◌, ◌≡◌, refl, List, [], ◌∷◌, ◌++◌, arith, All,
  All-append, ltb, Bool-cases, inl, inr,
}
use smyte_db.Codec.Value.Encode.{decimal, decimal_fuel}

-- The byte of a digit.
abbrev pub IsDigit : ℕ → Type 0
IsDigit c = (48 ≤ c) × (c ≤ 57)

digits_fuel : (f n : ℕ) → All IsDigit (decimal_fuel f n)
unfolding decimal_fuel
digits_fuel zero n = tt
digits_fuel (suc f) n = elim (Bool-cases (ltb n 10)) [
  | inl small ↦ rw small (ground arith)
  | inr large ↦
      rw large
        (All-append IsDigit (decimal_fuel f (n / 10)) _ (digits_fuel f (n / 10)) (omega arith))
]

pub decimal-IsDigit : (n : ℕ) → All IsDigit (decimal n)
unfolding decimal
decimal-IsDigit n = digits_fuel (suc n) n

-- What is not empty has a first byte.
pub record Cons (l : List ℕ) : Type 0 where
  pub head : ℕ
  pub tail : List ℕ
  pub eq : l ≡ head ∷ tail

append-Cons : (xs : List ℕ) (y : ℕ) → Cons (xs ++ y ∷ [])
append-Cons [] y = record { head = y; tail = []; eq = refl }
append-Cons (x ∷ xs) y = record { head = x; tail = xs ++ y ∷ []; eq = refl }

pub decimal-Cons : (n : ℕ) → Cons (decimal n)
unfolding decimal decimal_fuel
decimal-Cons n = elim (Bool-cases (ltb n 10)) [
  | inl small ↦ rw small (append-Cons [] (48 + n))
  | inr large ↦ rw large (append-Cons (decimal_fuel n (n / 10)) (48 + n % 10))
]

-- What `decimal` prints, as a number.
unfoldable pub number_from : ℕ → List ℕ → ℕ
number_from acc [] = acc
number_from acc (c ∷ cs) = number_from (acc * 10 + (c - 48)) cs

number_from-append :
    (acc : ℕ) (xs : List ℕ) (d : ℕ)
    → number_from acc (xs ++ (48 + d) ∷ []) ≡ number_from acc xs * 10 + d
unfolding number_from
number_from-append acc [] d = omega arith
number_from-append acc (x ∷ xs) d = number_from-append (acc * 10 + (x - 48)) xs d

number_fuel : (f n : ℕ) → n < f → number_from 0 (decimal_fuel f n) ≡ n
unfolding decimal_fuel
number_fuel zero n h = absurd (omega arith)
number_fuel (suc f) n h = elim (Bool-cases (ltb n 10)) [
  | inl small ↦ rw small (number_from-append 0 [] n ∙ unfold number_from in omega arith)
  | inr large ↦ rw large (
      number_from-append 0 (decimal_fuel f (n / 10)) (n % 10)
      ∙ omega (arith, number_fuel f (n / 10) (ground arith)))
]

pub number-decimal : (n : ℕ) → number_from 0 (decimal n) ≡ n
unfolding decimal
number-decimal n = number_fuel (suc n) n (omega arith)
