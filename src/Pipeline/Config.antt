-- ===== src/Pipeline/Config.antt =====
-- pipeline/KafkaConsumerConfig.h and KafkaConsumerConfig.cpp, over a parsed JSON object. `none` is a
-- failed CHECK or the exception for a value of another type.
pub mod Complete
mod Examples
use smyte_db.Prelude.{
  ℕ, List, [], ◌∷◌, Bool, true, false, ◌&&◌, Option, none, some, if◌then◌else◌, codes,
}
use smyte_db.Prelude.Int.{ℤ, pos, leb_ℤ, signed, low_bits}
use smyte_db.Pipeline.Table.{Table, find}

-- folly::dynamic, as far as the code looks at it.
pub data Json : Type 0 where
  text : List ℕ → Json
  number : ℤ → Json
  truth : Bool → Json
  something : Json

pub record KafkaConsumerConfig : Type 0 where
  pub consumer_name : List ℕ
  pub topic : List ℕ
  pub partition : ℤ
  pub group_id : List ℕ
  pub offset_key_suffix : List ℕ
  pub consume_from_beginning_one_off : Bool
  pub initial_offset_one_off : ℤ
  pub object_store_bucket_name : List ℕ
  pub object_store_object_name_prefix : List ℕ
  pub low_latency : Bool

abbrev pub get_string : Json → Option (List ℕ)
get_string (text s) = some s
get_string _ = none

abbrev pub get_int : Json → Option ℤ
get_int (number n) = some n
get_int _ = none

abbrev pub get_bool : Json → Option Bool
get_bool (truth b) = some b
get_bool _ = none

-- A required entry, and an optional one with its default.
abbrev pub required : {A : Type 0} → (Json → Option A) → Option Json → Option A
required read none = none
required read (some v) = read v

abbrev pub optional : {A : Type 0} → (Json → Option A) → A → Option Json → Option A
optional read default none = some default
optional read default (some v) = read v

-- The conversion of the partition to int.
abbrev pub to_int : ℤ → ℤ
to_int n = signed 32 (low_bits n 32)

infixl 20 ◌>>=◌
abbrev ◌>>=◌ : {A B : Type 0} → Option A → (A → Option B) → Option B
none >>= f = none
some a >>= f = f a

unfoldable pub create_from_json : ℤ → Table Json → Option KafkaConsumerConfig
create_from_json offset_invalid config = do
  consumer_name ← required get_string (find (codes "consumer_name") config)
  topic ← required get_string (find (codes "topic") config)
  partition ← required get_int (find (codes "partition") config)
  group_id ← required get_string (find (codes "group_id") config)
  offset_key_suffix ← optional get_string [] (find (codes "offset_key_suffix") config)
  from_beginning ← optional get_bool false (find (codes "consume_from_beginning_one_off") config)
  initial_offset ← optional get_int offset_invalid (find (codes "initial_offset_one_off") config)
  bucket_name ←
      (if from_beginning && leb_ℤ (pos 0) initial_offset
        then none
        else optional get_string [] (find (codes "object_store_bucket_name") config))
  name_prefix ← optional get_string [] (find (codes "object_store_object_name_prefix") config)
  low_latency ← optional get_bool false (find (codes "low_latency") config)
  some (record {
    consumer_name = consumer_name;
    topic = topic;
    partition = to_int partition;
    group_id = group_id;
    offset_key_suffix = offset_key_suffix;
    consume_from_beginning_one_off = from_beginning;
    initial_offset_one_off = initial_offset;
    object_store_bucket_name = bucket_name;
    object_store_object_name_prefix = name_prefix;
    low_latency = low_latency;
  })
