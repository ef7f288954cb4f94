-- ===== src/SmyteId.antt =====
-- infra/SmyteId.h: 64-bit ids made of a timestamp, a counter and a machine number. A failed CHECK,
-- which ends the process, is `none`; the system clock is an argument.
pub mod Fields
pub mod Shards
pub mod Binary
mod Examples
use Prim.Native.Nat.{bit_xor}
use smyte_db.Prelude.{
  ℕ, ◌+◌, ◌-◌, ◌*◌, ◌^◌, Bool, ◌&&◌, Option, none, some, List, ◌++◌, ltb, leb, if◌then◌else◌,
}
use smyte_db.Prelude.Int.{
  ℤ, pos, negsuc, ◌+ℤ◌, ◌-ℤ◌, ltb_ℤ, leb_ℤ, eqb_ℤ, shl, shr, rem, low_bits, pos_part, neg_part,
}
use smyte_db.Endian.{Endian}

abbrev pub timestamp_bits : ℕ
timestamp_bits = 40

abbrev pub timestamp_size : ℕ
timestamp_size = 2 ^ timestamp_bits

abbrev pub timestamp_epoch : ℕ
timestamp_epoch = 1262304000000

abbrev pub timestamp_sane_earliest : ℕ
timestamp_sane_earliest = 1416441600000

abbrev pub timestamp_sane_future_ms : ℕ
timestamp_sane_future_ms = 1000 * 3600 * 24 * 90

abbrev pub unique_bits : ℕ
unique_bits = 10

abbrev pub unique_size : ℕ
unique_size = 2 ^ unique_bits

abbrev pub machine_bits : ℕ
machine_bits = 13

abbrev pub machine_size : ℕ
machine_size = 2 ^ machine_bits

abbrev pub machine_base : ℕ
machine_base = machine_size - 1024

abbrev pub virtual_shard_bits : ℕ
virtual_shard_bits = 10

abbrev pub virtual_shard_count : ℕ
virtual_shard_count = 2 ^ virtual_shard_bits

abbrev pub kafka_backed_smyte_id_start_ms : ℕ
kafka_backed_smyte_id_start_ms = 1483228800000

pub record SmyteId : Type 0 where
  pub smyte_id : ℤ

-- The last line of generateFromKafka, behind its two CHECKs.
unfoldable pub pack : ℤ → ℤ → ℤ → ℤ
pack shifted_timestamp unique machine =
    shl (shl shifted_timestamp unique_bits +ℤ unique) machine_bits +ℤ machine

unfoldable pub generate_from_kafka : ℤ → ℤ → ℤ → Option SmyteId
unfolding pack
generate_from_kafka kafka_offset timestamp_ms virtual_shard =
    let shifted_timestamp = timestamp_ms -ℤ pos timestamp_epoch in
    if leb_ℤ (pos 0) shifted_timestamp && ltb_ℤ shifted_timestamp (pos timestamp_size)
    then (if leb_ℤ (pos 0) virtual_shard && ltb_ℤ virtual_shard (pos virtual_shard_count)
        then some (record {
          smyte_id =
              pack shifted_timestamp (rem kafka_offset unique_size)
                (pos machine_base +ℤ virtual_shard);
        })
        else none)
    else none

pub as_int : SmyteId → ℤ
as_int id = id.smyte_id

unfoldable pub timestamp : SmyteId → ℤ
timestamp id = shr id.smyte_id (unique_bits + machine_bits) +ℤ pos timestamp_epoch

unfoldable pub machine : SmyteId → ℕ
machine id = low_bits id.smyte_id machine_bits

-- `a ^ b` on two's complement.
abbrev pub xor_ℤ : ℤ → ℤ → ℤ
xor_ℤ (pos a) (pos b) = pos (bit_xor a b)
xor_ℤ (pos a) (negsuc b) = negsuc (bit_xor a b)
xor_ℤ (negsuc a) (pos b) = negsuc (bit_xor a b)
xor_ℤ (negsuc a) (negsuc b) = pos (bit_xor a b)

-- The sign of a divisor does not show in `%`.
unfoldable pub get_shard_index : SmyteId → ℤ → ℤ
get_shard_index id shard_count =
    rem (xor_ℤ id.smyte_id (shr id.smyte_id machine_bits))
      (pos_part shard_count + neg_part shard_count)

unfoldable pub get_virtual_shard : SmyteId → ℤ
get_virtual_shard id =
    let machine = rem id.smyte_id machine_size in
    if ltb_ℤ machine (pos machine_base) then negsuc 0 else rem machine virtual_shard_count

unfoldable pub equals : SmyteId → SmyteId → Bool
equals a b = eqb_ℤ a.smyte_id b.smyte_id

unfoldable pub is_generated_from_kafka : SmyteId → Bool
unfolding timestamp machine
is_generated_from_kafka id =
    leb_ℤ (pos kafka_backed_smyte_id_start_ms) (timestamp id) && leb machine_base (machine id)

unfoldable pub is_valid : ℤ → SmyteId → Bool
unfolding timestamp
is_valid now_ms id =
    leb_ℤ (pos timestamp_sane_earliest) (timestamp id)
    && leb_ℤ (timestamp id) (now_ms +ℤ pos timestamp_sane_future_ms)

module _ (e : Endian) where
  open e use {store, load}

  -- The constructors from a string and from a byte array, both of 8 bytes.
  unfoldable pub from_binary : List ℕ → SmyteId
  from_binary bytes = record { smyte_id = load 8 bytes }

  unfoldable pub append_as_binary : SmyteId → List ℕ → List ℕ
  append_as_binary id out = out ++ store 8 id.smyte_id

  unfoldable pub as_binary : SmyteId → List ℕ
  unfolding append_as_binary
  as_binary id = append_as_binary id List.[]
