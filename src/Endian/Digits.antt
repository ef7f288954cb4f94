-- ===== src/Endian/Digits.antt =====
-- Base-256 digits, most significant first.
use smyte_db.Prelude.{ℕ, ◌+◌, ◌*◌, ◌<◌, ◌≡◌, refl, List, [], ◌∷◌, ◌++◌, arith, length, All}

abbrev pub IsByte : ℕ → Type 0
IsByte b = b < 256

abbrev pub IsBytes : List ℕ → Type 0
IsBytes = All IsByte

abbrev pub digits_from : ℕ → List ℕ → ℕ
digits_from acc [] = acc
digits_from acc (b ∷ bs) = digits_from (acc * 256 + b) bs

abbrev pub of_digits : List ℕ → ℕ
of_digits = digits_from 0

pub digits_from-append :
    (acc : ℕ) (xs ys : List ℕ) → digits_from acc (xs ++ ys) ≡ digits_from (digits_from acc xs) ys
digits_from-append acc [] ys = refl
digits_from-append acc (x ∷ xs) ys = digits_from-append (acc * 256 + x) xs ys

-- A smaller head stays smaller, whatever the digits behind it.
pub digits_from-lt :
    (a b : ℕ) (xs ys : List ℕ)
    → a < b
    → length xs ≡ length ys
    → IsBytes xs
    → digits_from a xs < digits_from b ys
digits_from-lt a b [] [] h l bx = h
digits_from-lt a b [] (y ∷ ys) h l bx = absurd (omega arith)
digits_from-lt a b (x ∷ xs) [] h l bx = absurd (omega arith)
digits_from-lt a b (x ∷ xs) (y ∷ ys) h l bx =
    digits_from-lt (a * 256 + x) (b * 256 + y) xs ys (omega arith) (omega arith) bx.1
