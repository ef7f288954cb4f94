-- ===== src/Pipeline/Config/Complete.antt =====
-- A JSON object with all entries of pipeline/KafkaConsumerConfig.cpp.
use smyte_db.Prelude.{
  ◌<◌, ◌≡◌, refl, ap, [], ◌∷◌, ◌&&◌, none, some, if◌then◌else◌, codes, bytes_eq, arith, Bool-cases,
  inl, inr,
}
use smyte_db.Prelude.Int.{ℤ, pos, negsuc, leb_ℤ}
use smyte_db.Pipeline.Table.{Table, find}
use smyte_db.Pipeline.Config.{
  Json, text, number, truth, KafkaConsumerConfig, create_from_json, to_int,
}

-- The range of int.
abbrev pub IsInt : ℤ → Type 0
IsInt (pos n) = n < 2147483648
IsInt (negsuc n) = n < 2147483648

to_int_same : (x : ℤ) → IsInt x → to_int x ≡ x
to_int_same (pos n) h = ground arith
to_int_same (negsuc n) h = ground arith

abbrev pub to_json : KafkaConsumerConfig → Table Json
to_json c =
    (codes "low_latency", truth c.low_latency)
    ∷ (codes "object_store_object_name_prefix", text c.object_store_object_name_prefix)
    ∷ (codes "object_store_bucket_name", text c.object_store_bucket_name)
    ∷ (codes "initial_offset_one_off", number c.initial_offset_one_off)
    ∷ (codes "consume_from_beginning_one_off", truth c.consume_from_beginning_one_off)
    ∷ (codes "offset_key_suffix", text c.offset_key_suffix)
    ∷ (codes "group_id", text c.group_id)
    ∷ (codes "partition", number c.partition)
    ∷ (codes "topic", text c.topic)
    ∷ (codes "consumer_name", text c.consumer_name)
    ∷ []

-- The configuration is read back from a JSON object that has all of its entries, if the partition is
-- in the range of int; but if it asks for both the beginning and a non-negative offset, it is
-- refused.
pub create_from_json-to_json :
    (offset_invalid : ℤ) (c : KafkaConsumerConfig)
    → IsInt c.partition
    → create_from_json offset_invalid (to_json c) ≡ (
        if c.consume_from_beginning_one_off && leb_ℤ (pos 0) c.initial_offset_one_off
        then none
        else some c)
unfolding create_from_json find bytes_eq
create_from_json-to_json offset_invalid c h =
    elim (Bool-cases (c.consume_from_beginning_one_off && leb_ℤ (pos 0) c.initial_offset_one_off)) [
      | inl twice ↦ rw twice refl
      | inr once ↦ rw once (ap (λ p. some (record c { partition = p })) (to_int_same c.partition h))
    ]
