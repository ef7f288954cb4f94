-- ===== src/SmyteId/Examples.antt =====
-- Runs of the operations of infra/SmyteId.h on the values of SmyteIdTest.cpp and others.
use smyte_db.Prelude.{◌+◌, ◌≡◌, ◌≢◌, refl, ◌↔◌, true, some, none, arith, ltb}
use smyte_db.Prelude.Int.{pos, ◌+ℤ◌, ◌≤ℤ◌, IsInt64}
use smyte_db.Endian.{big_endian}
use smyte_db.Endian.Order.{lex_lt}
use smyte_db.SmyteId.{
  SmyteId, generate_from_kafka, timestamp, machine, get_virtual_shard, get_shard_index,
  is_generated_from_kafka, as_binary, machine_base, timestamp_epoch, timestamp_size,
  virtual_shard_count,
}
use smyte_db.SmyteId.Fields.{generate_fields, generate_accepts, generate_recognised}
use smyte_db.SmyteId.Shards.{get_shard_index_range}
use smyte_db.SmyteId.Binary.{as_binary-order}

abbrev early : SmyteId
early = record { smyte_id = pos 1853291810004212745 }

abbrev late : SmyteId
late = record { smyte_id = pos 1853291810012601353 }

generate_early : generate_from_kafka (pos 5000) (pos 1483233600000) (pos 9) ≡ some early
unfolding generate_from_kafka
generate_early = refl

generate_late : generate_from_kafka (pos 5000) (pos 1483233600001) (pos 9) ≡ some late
unfolding generate_from_kafka
generate_late = refl

generate_fields_example :
    IsInt64 (early).smyte_id
    × (timestamp early ≡ pos 1483233600000)
    × (get_virtual_shard early ≡ pos 9)
    × (pos (machine early) ≡ pos machine_base +ℤ pos 9)
generate_fields_example = generate_fields 5000 (pos 1483233600000) (pos 9) early generate_early

generate_accepts_example : (generate_from_kafka (pos 1) (pos 5) (pos 2) ≢ none) ↔ (
    (pos timestamp_epoch ≤ℤ pos 5)
    × (pos 5 +ℤ pos 1 ≤ℤ pos (timestamp_epoch + timestamp_size))
    × (pos 0 ≤ℤ pos 2)
    × (pos 2 +ℤ pos 1 ≤ℤ pos virtual_shard_count))
generate_accepts_example = generate_accepts (pos 1) (pos 5) (pos 2)

generate_recognised_example : is_generated_from_kafka early ≡ true
generate_recognised_example =
    generate_recognised 5000 (pos 1483233600000) (pos 9) early generate_early (omega arith)

get_shard_index_range_example :
    (pos 0 ≤ℤ get_shard_index early (pos 7)) × (get_shard_index early (pos 7) +ℤ pos 1 ≤ℤ pos 7)
get_shard_index_range_example = get_shard_index_range early 7 (omega arith)

as_binary-order_example :
    lex_lt
      (as_binary big_endian (record { smyte_id = pos 255 }))
      (as_binary big_endian (record { smyte_id = pos 256 }))
    ≡ ltb 255 256
as_binary-order_example = as_binary-order big_endian 255 256 (omega arith) (omega arith)
