-- ===== src/Codec/Buffers/Chain.antt =====
-- The text before the first occurrence of a byte, and the text behind it.
use smyte_db.Prelude.{
  ℕ, ◌≡◌, ◌≢◌, List, [], ◌∷◌, ◌++◌, Option, none, some, ◌==◌, if◌then◌else◌, arith, All,
}

pub data Terminated {ℓ} (C : Type ℓ) : Type ℓ where
  -- the text before the terminator, and the cursor behind it
  found : List ℕ → C → Terminated C
  out_of_range : Terminated C
  other_exception : Terminated C

-- What a search for a terminator that has passed `c` makes of the search behind it.
abbrev pub put_front : ℕ → Option (List ℕ × List ℕ) → Option (List ℕ × List ℕ)
put_front c none = none
put_front c (some (s, rest)) = some (c ∷ s, rest)

unfoldable pub split_at : ℕ → List ℕ → Option (List ℕ × List ℕ)
split_at t [] = none
split_at t (c ∷ cs) =
    let later = split_at t cs in if c == t then some ([], cs) else put_front c later

pub split_at-append :
    (t : ℕ) (s rest : List ℕ) → All (λ c. c ≢ t) s → split_at t (s ++ t ∷ rest) ≡ some (s, rest)
unfolding split_at
split_at-append t [] rest h = ground arith
split_at-append t (c ∷ s) rest h = ground (arith, split_at-append t s rest)
