-- ===== src/Codec/Value.antt =====
-- codec/RedisValue.h and codec/RedisMessage.h. A string is the list of its bytes. The class keeps a
-- type tag beside a variant; its constructors pair each tag with one alternative, and so a value
-- is a data type here.
pub mod Equality
pub mod Encode
pub mod Decimal
pub mod Wire
use smyte_db.Prelude.{
  ℕ, zero, suc, ◌+◌, ◌/◌, ◌%◌, List, [], ◌∷◌, ◌++◌, Bool, true, false, ◌&&◌, Option, none, some,
  length, ltb, leb, if◌then◌else◌, ◌==◌, bytes_eq,
}
use smyte_db.Prelude.Int.{ℤ, pos, negsuc, eqb_ℤ, ltb_ℤ}
use smyte_db.Endian.{Endian}

mutual
  pub data RedisValue : Type 0 where
    integer : ℤ → RedisValue
    error : List ℕ → RedisValue
    simple_string : List ℕ → RedisValue
    bulk_string : List ℕ → RedisValue
    array : Values → RedisValue
    bulk_string_array : List (List ℕ) → RedisValue
    null_string : RedisValue
    async_result : RedisValue

  -- std::vector<RedisValue>
  pub data Values : Type 0 where
    nil : Values
    cons : RedisValue → Values → Values

pub data ValueType : Type 0 where
  k_integer k_error k_simple_string k_bulk_string k_array k_bulk_string_array : ValueType
  k_null_string k_async_result : ValueType

unfoldable pub type_of : RedisValue → ValueType
type_of (integer n) = k_integer
type_of (error s) = k_error
type_of (simple_string s) = k_simple_string
type_of (bulk_string s) = k_bulk_string
type_of (array xs) = k_array
type_of (bulk_string_array ss) = k_bulk_string_array
type_of null_string = k_null_string
type_of async_result = k_async_result

abbrev pub is_async : RedisValue → Bool
is_async async_result = true
is_async _ = false

abbrev pub is_error : RedisValue → Bool
is_error (error s) = true
is_error _ = false

-- kTypeIndicators, which has no entry for the type of async results.
unfoldable pub type_indicator : ValueType → Option ℕ
type_indicator k_integer = some b':'
type_indicator k_error = some b'-'
type_indicator k_simple_string = some b'+'
type_indicator k_bulk_string = some b'$'
type_indicator k_array = some b'*'
type_indicator k_bulk_string_array = some b'*'
type_indicator k_null_string = some b'$'
type_indicator k_async_result = none

abbrev pub go_away : RedisValue
go_away = error (b'G' ∷ b'O' ∷ b'A' ∷ b'W' ∷ b'A' ∷ b'Y' ∷ [])

abbrev pub empty_list_or_set : RedisValue
empty_list_or_set = array nil

module _ (e : Endian) where
  open e use {store}

  unfoldable pub from_long : ℤ → RedisValue
  from_long n = bulk_string (store 8 n)

  -- `none` is the failed CHECK.
  unfoldable pub smyte_id_binary : ℤ → Option RedisValue
  unfolding from_long
  smyte_id_binary n = if ltb_ℤ (pos 0) n then some (from_long n) else none

pub record RedisMessage : Type 0 where
  pub key : ℤ
  pub val : RedisValue

-- operator== on vectors of strings: the sizes, then each pair.
unfoldable pub strings_eq : List (List ℕ) → List (List ℕ) → Bool
unfolding bytes_eq
strings_eq [] [] = true
strings_eq [] (y ∷ ys) = false
strings_eq (x ∷ xs) [] = false
strings_eq (x ∷ xs) (y ∷ ys) = bytes_eq x y && strings_eq xs ys

-- operator== of RedisValue, and of vectors of it.
unfoldable mutual
  unfolding bytes_eq strings_eq

  pub equals : RedisValue → RedisValue → Bool
  equals (integer m) (integer n) = eqb_ℤ m n
  equals (error s) (error t) = bytes_eq s t
  equals (simple_string s) (simple_string t) = bytes_eq s t
  equals (bulk_string s) (bulk_string t) = bytes_eq s t
  equals (array xs) (array ys) = equals_all xs ys
  equals (bulk_string_array ss) (bulk_string_array ts) = strings_eq ss ts
  equals null_string null_string = true
  equals async_result async_result = true
  equals _ _ = false

  pub equals_all : Values → Values → Bool
  equals_all nil nil = true
  equals_all nil (cons y ys) = false
  equals_all (cons x xs) nil = false
  equals_all (cons x xs) (cons y ys) = equals x y && equals_all xs ys

unfoldable pub message_equals : RedisMessage → RedisMessage → Bool
unfolding equals
message_equals a b = eqb_ℤ a.key b.key && equals a.val b.val
