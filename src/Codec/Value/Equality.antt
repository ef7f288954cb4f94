-- ===== src/Codec/Value/Equality.antt =====
-- operator== of codec/RedisValue.h is equality.
use smyte_db.Prelude.{
  ℕ, ◌≡◌, refl, ap, ◌↔◌, List, [], ◌∷◌, true, arith, bytes_eq_sound, bytes_eq_refl,
}
use smyte_db.Prelude.Int.{ℤ, eqb_ℤ, eqb_ℤ-sound}
use smyte_db.Codec.Value.{
  RedisValue, integer, error, simple_string, bulk_string, array, bulk_string_array, null_string,
  async_result, Values, nil, cons, equals, equals_all, strings_eq, RedisMessage, message_equals,
}

strings_eq_sound : (xs ys : List (List ℕ)) → strings_eq xs ys ≡ true → xs ≡ ys
unfolding strings_eq
strings_eq_sound [] [] h = refl
strings_eq_sound [] (y ∷ ys) h = cc
strings_eq_sound (x ∷ xs) [] h = cc
strings_eq_sound (x ∷ xs) (y ∷ ys) h = ground (arith, bytes_eq_sound x y, strings_eq_sound xs ys)

strings_eq_refl : (xs : List (List ℕ)) → strings_eq xs xs ≡ true
unfolding strings_eq
strings_eq_refl [] = refl
strings_eq_refl (x ∷ xs) = ground (arith, bytes_eq_refl x, strings_eq_refl xs)

mutual
  unfolding equals equals_all

  value_sound : (a b : RedisValue) → equals a b ≡ true → a ≡ b
  value_sound (integer m) (integer n) h = ap integer (eqb_ℤ-sound m n h)
  value_sound (error s) (error t) h = ap error (bytes_eq_sound s t h)
  value_sound (simple_string s) (simple_string t) h = ap simple_string (bytes_eq_sound s t h)
  value_sound (bulk_string s) (bulk_string t) h = ap bulk_string (bytes_eq_sound s t h)
  value_sound (array xs) (array ys) h = ap array (values_sound xs ys h)
  value_sound (bulk_string_array ss) (bulk_string_array ts) h =
      ap bulk_string_array (strings_eq_sound ss ts h)
  value_sound null_string null_string h = refl
  value_sound async_result async_result h = refl
  value_sound _ _ h = cc

  values_sound : (xs ys : Values) → equals_all xs ys ≡ true → xs ≡ ys
  values_sound nil nil h = refl
  values_sound nil (cons y ys) h = cc
  values_sound (cons x xs) nil h = cc
  values_sound (cons x xs) (cons y ys) h = ground (arith, value_sound x y, values_sound xs ys)

eqb_refl : (n : ℤ) → eqb_ℤ n n ≡ true
eqb_refl n = ground arith

mutual
  unfolding equals equals_all

  value_refl : (a : RedisValue) → equals a a ≡ true
  value_refl (integer m) = eqb_refl m
  value_refl (error s) = bytes_eq_refl s
  value_refl (simple_string s) = bytes_eq_refl s
  value_refl (bulk_string s) = bytes_eq_refl s
  value_refl (array xs) = values_refl xs
  value_refl (bulk_string_array ss) = strings_eq_refl ss
  value_refl null_string = refl
  value_refl async_result = refl

  values_refl : (xs : Values) → equals_all xs xs ≡ true
  values_refl nil = refl
  values_refl (cons x xs) = ground (arith, value_refl x, values_refl xs)

-- Two messages are equal by operator== exactly if they have the same key and the same value, down
-- to every element of nested arrays.
pub message_equals_iff : (a b : RedisMessage) → (message_equals a b ≡ true) ↔ (a ≡ b)
unfolding message_equals
message_equals_iff a b = (
  λ h. ground (arith, eqb_ℤ-sound a.key b.key, value_sound a.val b.val),
  λ e. rw e (ground (arith, eqb_refl b.key, value_refl b.val)),
)
