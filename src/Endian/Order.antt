-- ===== src/Endian/Order.antt =====
-- The lexicographic order of byte strings, which is the order of `std::string` and of the keys in
-- RocksDB, against the order of the numbers that they spell.
use smyte_db.Prelude.{
  ℕ, ◌+◌, ◌*◌, ◌≡◌, List, [], ◌∷◌, ◌++◌, arith, length, Bool, true, false, ltb, ◌==◌, if◌then◌else◌,
}
use smyte_db.Endian.Digits.{IsBytes, of_digits, digits_from, digits_from-lt}

-- `memcmp` order, the shorter of two strings first.
unfoldable pub lex_lt : List ℕ → List ℕ → Bool
lex_lt [] [] = false
lex_lt [] (y ∷ ys) = true
lex_lt (x ∷ xs) [] = false
lex_lt (x ∷ xs) (y ∷ ys) =
    let rest = lex_lt xs ys in if ltb x y then true else if x == y then rest else false

lex_lt-digits_from :
    (acc : ℕ) (xs ys : List ℕ)
    → length xs ≡ length ys
    → IsBytes xs
    → IsBytes ys
    → lex_lt xs ys ≡ ltb (digits_from acc xs) (digits_from acc ys)
unfolding lex_lt
lex_lt-digits_from acc [] [] l bx by = ground arith
lex_lt-digits_from acc [] (y ∷ ys) l bx by = absurd (omega arith)
lex_lt-digits_from acc (x ∷ xs) [] l bx by = absurd (omega arith)
lex_lt-digits_from acc (x ∷ xs) (y ∷ ys) l bx by = ground (
  arith,
  lex_lt-digits_from (acc * 256 + x) xs ys,
  digits_from-lt (acc * 256 + x) (acc * 256 + y) xs ys,
  digits_from-lt (acc * 256 + y) (acc * 256 + x) ys xs,
)

-- On strings of one length, the two orders are one.
pub lex_lt-of_digits :
    (xs ys : List ℕ)
    → length xs ≡ length ys
    → IsBytes xs
    → IsBytes ys
    → lex_lt xs ys ≡ ltb (of_digits xs) (of_digits ys)
lex_lt-of_digits = lex_lt-digits_from 0

-- What is appended to strings of one length decides only between equal ones.
pub lex_lt-append :
    (xs ys us vs : List ℕ)
    → length xs ≡ length ys
    → lex_lt xs ys ≡ true
    → lex_lt (xs ++ us) (ys ++ vs) ≡ true
unfolding lex_lt
lex_lt-append [] [] us vs l h = absurd (cc)
lex_lt-append [] (y ∷ ys) us vs l h = absurd (omega arith)
lex_lt-append (x ∷ xs) [] us vs l h = absurd (omega arith)
lex_lt-append (x ∷ xs) (y ∷ ys) us vs l h = ground (arith, lex_lt-append xs ys us vs)
