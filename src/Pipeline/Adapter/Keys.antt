-- ===== src/Pipeline/Adapter/Keys.antt =====
-- Keys that count up, for the outputs of pipeline/OrderedRedisMessageAdapter.
use smyte_db.Prelude.{
  ℕ, zero, suc, ◌+◌, ◌≡◌, refl, List, [], ◌∷◌, ◌++◌, true, some, length, get_elem?, set,
  if◌then◌else◌, arith, subst,
}
use smyte_db.Prelude.Int.{pos, negsuc, eqb_ℤ}
use smyte_db.Codec.Value.{RedisValue, RedisMessage, is_async}

-- Messages whose keys count up from a number.
abbrev pub Consecutive : ℕ → List RedisMessage → Type 0
Consecutive k [] = Unit
Consecutive k (m ∷ ms) = (m.key ≡ pos k) × Consecutive (suc k) ms

-- The first output that is held back is one that waits for its reply.
abbrev pub FirstWaits : List RedisMessage → Type 0
FirstWaits [] = Unit
FirstWaits (m ∷ ms) = is_async m.val ≡ true

-- The messages that answer a request.
abbrev pub answers : List RedisMessage → List RedisMessage
answers [] = []
answers (m ∷ ms) = if eqb_ℤ m.key (negsuc 0) then answers ms else m ∷ answers ms

add_zero : (k : ℕ) → k + 0 ≡ k
add_zero k = omega arith

add_one : (k n : ℕ) → k + suc n ≡ suc k + n
add_one k n = omega arith

pub Consecutive-append :
    (k : ℕ) (xs ys : List RedisMessage)
    → Consecutive k xs
    → Consecutive (k + length xs) ys
    → Consecutive k (xs ++ ys)
Consecutive-append k [] ys h g = subst (λ n. Consecutive n ys) (add_zero k) g
Consecutive-append k (x ∷ xs) ys h g = (
  h.0,
  Consecutive-append (suc k) xs ys h.1 (subst (λ n. Consecutive n ys) (add_one k (length xs)) g),
)

pub answers-append : (xs ys : List RedisMessage) → answers (xs ++ ys) ≡ answers xs ++ answers ys
answers-append [] ys = refl
answers-append (x ∷ xs) ys = ground (arith, answers-append xs ys)

pub answers-Consecutive : (k : ℕ) (xs : List RedisMessage) → Consecutive k xs → answers xs ≡ xs
answers-Consecutive k [] h = refl
answers-Consecutive k (x ∷ xs) h = ground (arith, answers-Consecutive (suc k) xs h.1)

pub set-Consecutive :
    (k i : ℕ) (ms : List RedisMessage) (m : RedisMessage) (v : RedisValue)
    → Consecutive k ms
    → get_elem? ms i ≡ some m
    → Consecutive k (set ms i (record m { val = v }))
set-Consecutive k i [] m v h e = tt
set-Consecutive k zero (x ∷ ms) m v h e = (ground arith, h.1)
set-Consecutive k (suc i) (x ∷ ms) m v h e = (h.0, set-Consecutive (suc k) i ms m v h.1 e)

pub FirstWaits-append :
    (ms : List RedisMessage) (m : RedisMessage)
    → is_async m.val ≡ true
    → FirstWaits ms
    → FirstWaits (ms ++ m ∷ [])
FirstWaits-append [] m h w = h
FirstWaits-append (x ∷ ms) m h w = w
