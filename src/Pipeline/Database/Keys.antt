-- ===== src/Pipeline/Database/Keys.antt =====
-- The keys and numbers of pipeline/DatabaseManager.h and DatabaseManager.cpp.
use smyte_db.Prelude.{
  ℕ, ◌+◌, ◌-◌, ◌*◌, ◌/◌, ◌%◌, ◌<◌, ◌≤◌, ◌≡◌, ◌≢◌, refl, sym, ap, ◌∙◌, List, [], ◌∷◌, ◌++◌, false,
  none, some, length, ltb, ◌==◌, if◌then◌else◌, arith, All, append-nil, append_assoc, Bool-cases,
  inl, inr, length-append,
}
use smyte_db.Prelude.Int.{ℤ}
use smyte_db.Endian.{IsBytes}
use smyte_db.Pipeline.Database.{
  encode_int64, decode_int64, hex_value, is_escaped, escape_loop, escape_key_str,
}

-- The escaped form of one byte.
unfoldable escaped : ℕ → List ℕ
unfolding hex_value
escaped c = if is_escaped c then 37 ∷ hex_value (c / 16) ∷ hex_value (c % 16) ∷ [] else c ∷ []

unfoldable pub escape_each : List ℕ → List ℕ
unfolding escaped
escape_each [] = []
escape_each (c ∷ cs) = escaped c ++ escape_each cs

loop-each : (out block str : List ℕ) → escape_loop out block str ≡ (out ++ block) ++ escape_each str
unfolding escape_loop escape_each escaped
loop-each out block [] = sym (append-nil (out ++ block))
loop-each out block (c ∷ cs) = elim (Bool-cases (is_escaped c)) [
  | inl special ↦ rw special (
      loop-each ((out ++ block) ++ (37 ∷ hex_value (c / 16) ∷ hex_value (c % 16) ∷ [])) [] cs
      ∙ by_code (out ++ block) (37 ∷ hex_value (c / 16) ∷ hex_value (c % 16) ∷ []) (escape_each cs))
  | inr plain ↦
      rw plain (loop-each out (block ++ c ∷ []) cs ∙ by_copy out block (c ∷ []) (escape_each cs))
]
  where
    by_code : (x code rest : List ℕ) → ((x ++ code) ++ []) ++ rest ≡ x ++ (code ++ rest)
    by_code x code rest = ap (λ l. l ++ rest) (append-nil (x ++ code)) ∙ append_assoc x code rest

    by_copy : (x y c rest : List ℕ) → (x ++ (y ++ c)) ++ rest ≡ (x ++ y) ++ (c ++ rest)
    by_copy x y c rest =
        ap (λ l. l ++ rest) (sym (append_assoc x y c)) ∙ append_assoc (x ++ y) c rest

-- The value of a hexadecimal digit.
unfoldable pub hex_digit : ℕ → ℕ
hex_digit h = if ltb h 58 then h - 48 else h - 55

-- Reads escaped keys.
unfoldable pub unescape : List ℕ → List ℕ
unfolding hex_digit
unescape [] = []
unescape (c ∷ []) = c ∷ []
unescape (c ∷ x ∷ []) = c ∷ x ∷ []
unescape (c ∷ x ∷ y ∷ rest) =
    let coded = unescape rest in
    let copied = unescape (x ∷ y ∷ rest) in
    if c == 37 then (hex_digit x * 16 + hex_digit y) ∷ coded else c ∷ copied

hex_digit-hex_value : (n : ℕ) → n < 16 → hex_digit (hex_value n) ≡ n
unfolding hex_digit hex_value
hex_digit-hex_value n h = ground arith

unescape-code :
    (c : ℕ) (rest : List ℕ)
    → c < 256
    → unescape (37 ∷ hex_value (c / 16) ∷ hex_value (c % 16) ∷ rest) ≡ c ∷ unescape rest
unfolding unescape
unescape-code c rest h =
    rw (hex_digit-hex_value (c / 16) (omega arith), hex_digit-hex_value (c % 16) (omega arith))
      (ap (λ d. d ∷ unescape rest) (omega arith))

unescape-copy : (c : ℕ) (rest : List ℕ) → c ≢ 37 → unescape (c ∷ rest) ≡ c ∷ unescape rest
unfolding unescape
unescape-copy c [] h = refl
unescape-copy c (x ∷ []) h = refl
unescape-copy c (x ∷ y ∷ rest) h = ground arith

-- Escaped keys are read back.
unescape-each : (s : List ℕ) → IsBytes s → unescape (escape_each s) ≡ s
unfolding escape_each escaped
unescape-each [] h = unfold unescape in refl
unescape-each (c ∷ cs) (h, hs) = elim (Bool-cases (is_escaped c)) [
  | inl special ↦
      rw special (unescape-code c (escape_each cs) h ∙ ap (λ l. c ∷ l) (unescape-each cs hs))
  | inr plain ↦ rw plain (
      unescape-copy c (escape_each cs) (not_percent c plain)
      ∙ ap (λ l. c ∷ l) (unescape-each cs hs))
]
  where
    not_percent : (c : ℕ) → is_escaped c ≡ false → c ≢ 37
    not_percent c h = ground arith

-- The characters that escaped keys consist of.
abbrev pub IsPlain : ℕ → Type 0
IsPlain c = (33 ≤ c) × (c ≤ 125)

hex_value-IsPlain : (n : ℕ) → n < 16 → IsPlain (hex_value n)
unfolding hex_value
hex_value-IsPlain n h = ground arith

copied_IsPlain : (c : ℕ) → is_escaped c ≡ false → IsPlain c
copied_IsPlain c h = ground arith

escape_each-IsPlain : (s : List ℕ) → IsBytes s → All IsPlain (escape_each s)
unfolding escape_each escaped
escape_each-IsPlain [] h = tt
escape_each-IsPlain (c ∷ cs) (h, hs) = elim (Bool-cases (is_escaped c)) [
  | inl special ↦ rw special (
    (omega arith, omega arith),
    (
      hex_value-IsPlain (c / 16) (omega arith),
      (hex_value-IsPlain (c % 16) (omega arith), escape_each-IsPlain cs hs),
    ),
  )
  | inr plain ↦ rw plain (copied_IsPlain c plain, escape_each-IsPlain cs hs)
]

-- Escaping appends to the output a text of characters from '!' to '}' from which a reader of the
-- escapes gets back the string; and so different strings of bytes give different keys.
pub escape_key_str_lem :
    (str out : List ℕ)
    → IsBytes str
    → (key : List ℕ) × (escape_key_str str out ≡ out ++ key)
      × All IsPlain key
      × (unescape key ≡ str)
unfolding escape_key_str
escape_key_str_lem str out h = (
  escape_each str,
  loop-each out [] str ∙ ap (λ l. l ++ escape_each str) (append-nil out),
  escape_each-IsPlain str h,
  unescape-each str h,
)

-- A number appended to a buffer is read back from all of the buffer exactly if the buffer was empty;
-- the representation has 8 bytes and stands for the number.
pub decode_int64-encode_int64 :
    (representation : ℤ → List ℕ) (number : List ℕ → ℤ) (x : ℤ) (buf : List ℕ)
    → length (representation x) ≡ 8
    → number (representation x) ≡ x
    → decode_int64 number (encode_int64 representation x buf)
      ≡ (if length buf == 0 then some x else none)
unfolding decode_int64 encode_int64
decode_int64-encode_int64 representation number x [] l n = rw l (ap some n)
decode_int64-encode_int64 representation number x (b ∷ buf) l n =
    ground (arith, length-append buf (representation x))
