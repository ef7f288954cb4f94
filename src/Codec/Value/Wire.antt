-- ===== src/Codec/Value/Wire.antt =====
-- Properties of RedisValue::encode of codec/RedisValue.cpp.
use smyte_db.Prelude.{
  ℕ, suc, ◌≡◌, ◌≢◌, refl, ap, ◌⊎◌, inl, inr, ◌↔◌, List, [], ◌∷◌, ◌++◌, Option, none, some, length,
  arith, All, append_assoc,
}
use smyte_db.Codec.Value.{
  RedisValue, integer, error, simple_string, bulk_string, array, bulk_string_array, null_string,
  async_result, Values, nil, cons,
}
use smyte_db.Codec.Value.Encode.{
  encode, encode_all, encode_bulks, escape, count, join, decimal, crlf,
}

-- An async result at the top or in an array.
abbrev mutual
  pub HasAsync : RedisValue → Type 0
  HasAsync (array xs) = SomeAsync xs
  HasAsync async_result = Unit
  HasAsync _ = ⊥

  pub SomeAsync : Values → Type 0
  SomeAsync nil = ⊥
  SomeAsync (cons x xs) = HasAsync x ⊎ SomeAsync xs

join-none : (a b : Option (List ℕ)) → join a b ≡ none → (a ≡ none) ⊎ (b ≡ none)
join-none none b h = inl refl
join-none (some a) none h = inr refl
join-none (some a) (some b) h = absurd (cc)

join-some : (a : List ℕ) (b : Option (List ℕ)) → join (some a) b ≡ none → b ≡ none
join-some a none h = refl
join-some a (some b) h = absurd (cc)

join_right : (a : Option (List ℕ)) → join a none ≡ none
join_right none = refl
join_right (some a) = refl

mutual
  unfolding encode encode_all

  fails : (v : RedisValue) → encode v ≡ none → HasAsync v
  fails (integer n) h = cc
  fails (error s) h = cc
  fails (simple_string s) h = cc
  fails (bulk_string s) h = cc
  fails (array xs) h =
      some_fails xs (join-some (b'*' ∷ (decimal (count xs) ++ crlf)) (encode_all xs) h)
  fails (bulk_string_array ss) h = cc
  fails null_string h = cc
  fails async_result h = tt

  some_fails : (xs : Values) → encode_all xs ≡ none → SomeAsync xs
  some_fails nil h = cc
  some_fails (cons x xs) h = elim (join-none (encode x) (encode_all xs) h) [
    | inl e ↦ inl (fails x e)
    | inr e ↦ inr (some_fails xs e)
  ]

mutual
  unfolding encode encode_all

  async_fails : (v : RedisValue) → HasAsync v → encode v ≡ none
  async_fails (array xs) h = rw (SomeAsync-fails xs h)
  async_fails async_result h = refl
  async_fails (integer n) h = absurd h
  async_fails (error s) h = absurd h
  async_fails (simple_string s) h = absurd h
  async_fails (bulk_string s) h = absurd h
  async_fails (bulk_string_array ss) h = absurd h
  async_fails null_string h = absurd h

  SomeAsync-fails : (xs : Values) → SomeAsync xs → encode_all xs ≡ none
  SomeAsync-fails nil h = absurd h
  SomeAsync-fails (cons x xs) (inl h) = rw (async_fails x h)
  SomeAsync-fails (cons x xs) (inr h) = rw (SomeAsync-fails xs h) (join_right (encode x))

-- encode ends the process exactly on a value that is an async result or an array, however deep, that
-- holds one.
pub encode-none_iff : (v : RedisValue) → (encode v ≡ none) ↔ HasAsync v
encode-none_iff v = (fails v, async_fails v)

-- A byte that does not break a line.
abbrev pub InLine : ℕ → Type 0
InLine c = (c ≢ 13) × (c ≢ 10)

escape-InLine : (s : List ℕ) → All InLine (escape s)
unfolding escape
escape-InLine [] = tt
escape-InLine (c ∷ cs) = ground (arith, escape-InLine cs)

-- An error and a simple string are encoded as one line: the indicator and the escaped text, in which
-- there is neither a carriage return nor a line feed, whatever the text, and a line end.
pub encode_one_line :
    (s : List ℕ)
    → (encode (error s) ≡ some (b'-' ∷ (escape s ++ crlf)))
      × (encode (simple_string s) ≡ some (b'+' ∷ (escape s ++ crlf)))
      × All InLine (escape s)
unfolding encode
encode_one_line s = (refl, refl, escape-InLine s)

-- The elements of an array of bulk strings.
abbrev pub bulk_values : List (List ℕ) → Values
bulk_values [] = nil
bulk_values (s ∷ ss) = cons (bulk_string s) (bulk_values ss)

count-bulk_values : (ss : List (List ℕ)) → count (bulk_values ss) ≡ length ss
unfolding count
count-bulk_values [] = refl
count-bulk_values (s ∷ ss) = ap suc (count-bulk_values ss)

encode_all-bulk_values : (ss : List (List ℕ)) → encode_all (bulk_values ss) ≡ some (encode_bulks ss)
unfolding encode encode_all encode_bulks
encode_all-bulk_values [] = refl
encode_all-bulk_values (s ∷ ss) = rw (encode_all-bulk_values ss)

-- An array of bulk strings has one encoding, be it kept as a vector of strings or as a vector of
-- values.
pub encode-bulk_string_array :
    (ss : List (List ℕ)) → encode (array (bulk_values ss)) ≡ encode (bulk_string_array ss)
unfolding encode
encode-bulk_string_array ss =
    rw (encode_all-bulk_values ss, count-bulk_values ss) (ap some (simp append_assoc))
