-- ===== src/SmyteId/Fields.antt =====
-- What the accessors of infra/SmyteId.h read back from a generated id.
use smyte_db.Prelude.{ℕ, ◌+◌, ◌-◌, ◌*◌, ◌%◌, ◌<◌, ◌≡◌, refl, ◌↔◌, none, some, true, arith, ◌≢◌}
use smyte_db.Prelude.Int.{ℤ, pos, negsuc, ◌+ℤ◌, ◌≤ℤ◌, IsInt64}
use smyte_db.SmyteId.{
  SmyteId, generate_from_kafka, timestamp, machine, get_virtual_shard, is_generated_from_kafka,
  timestamp_epoch, timestamp_size, unique_size, machine_base, virtual_shard_count,
  kafka_backed_smyte_id_start_ms,
}

-- The id of a non-negative offset, as one number.
abbrev layout : ℕ → ℕ → ℕ → ℕ
layout offset ms shard = (ms * 1024 + offset % 1024) * 8192 + (7168 + shard)

record Inputs (offset : ℕ) (ts shard : ℤ) (id : SmyteId) : Type 0 where
  ms : ℕ
  v : ℕ
  ts_eq : ts ≡ pos (timestamp_epoch + ms)
  shard_eq : shard ≡ pos v
  ms_lt : ms < timestamp_size
  v_lt : v < virtual_shard_count
  id_eq : id.smyte_id ≡ pos (layout offset ms v)

generate_inv :
    (offset : ℕ) (ts shard : ℤ) (id : SmyteId)
    → generate_from_kafka (pos offset) ts shard ≡ some id
    → Inputs offset ts shard id
unfolding generate_from_kafka
generate_inv offset (pos t) (pos v) id e = record {
  ms = t - timestamp_epoch;
  v = v;
  ts_eq = ground arith;
  shard_eq = refl;
  ms_lt = ground arith;
  v_lt = ground arith;
  id_eq = ground arith;
}
generate_inv offset (pos t) (negsuc v) id e = absurd (ground arith)
generate_inv offset (negsuc t) (pos v) id e = absurd (ground arith)
generate_inv offset (negsuc t) (negsuc v) id e = absurd (ground arith)

-- An id generated for a non-negative offset is in the range of int64_t, and gives back the
-- timestamp, the virtual shard and, above machine_base, the machine number that it was made from.
pub generate_fields :
    (offset : ℕ) (ts shard : ℤ) (id : SmyteId)
    → generate_from_kafka (pos offset) ts shard ≡ some id
    → IsInt64 id.smyte_id
      × (timestamp id ≡ ts)
      × (get_virtual_shard id ≡ shard)
      × (pos (machine id) ≡ pos machine_base +ℤ shard)
unfolding timestamp get_virtual_shard machine
generate_fields offset ts shard id e =
    let i = generate_inv offset ts shard id e in
    (ground arith, ground arith, ground arith, ground arith)

-- generateFromKafka succeeds exactly on a timestamp of the 40 bits from the epoch on and on a
-- virtual shard below virtual_shard_count; any other input, and no offset, fails a CHECK.
pub generate_accepts :
    (offset ts shard : ℤ)
    → (generate_from_kafka offset ts shard ≢ none) ↔ (
        (pos timestamp_epoch ≤ℤ ts)
        × (ts +ℤ pos 1 ≤ℤ pos (timestamp_epoch + timestamp_size))
        × (pos 0 ≤ℤ shard)
        × (shard +ℤ pos 1 ≤ℤ pos virtual_shard_count))
unfolding generate_from_kafka
generate_accepts offset ts shard = (λ h. ground arith, λ h. ground arith)

-- Of two ids for non-negative offsets, the one with the later timestamp is the larger number.
pub generate_order :
    (offset offset' : ℕ) (ts ts' shard shard' : ℤ) (id id' : SmyteId)
    → generate_from_kafka (pos offset) ts shard ≡ some id
    → generate_from_kafka (pos offset') ts' shard' ≡ some id'
    → ts +ℤ pos 1 ≤ℤ ts'
    → id.smyte_id +ℤ pos 1 ≤ℤ id'.smyte_id
generate_order offset offset' ts ts' shard shard' id id' e e' h =
    let i = generate_inv offset ts shard id e in
    let j = generate_inv offset' ts' shard' id' e' in ground arith

-- Two inputs with non-negative offsets that give the same id have the same timestamp, the same
-- virtual shard, and offsets that are equal modulo unique_size.
pub generate_injective :
    (offset offset' : ℕ) (ts ts' shard shard' : ℤ) (id : SmyteId)
    → generate_from_kafka (pos offset) ts shard ≡ some id
    → generate_from_kafka (pos offset') ts' shard' ≡ some id
    → (ts ≡ ts') × (shard ≡ shard') × (offset % unique_size ≡ offset' % unique_size)
generate_injective offset offset' ts ts' shard shard' id e e' =
    let i = generate_inv offset ts shard id e in
    let j = generate_inv offset' ts' shard' id e' in (ground arith, ground arith, ground arith)

-- An id that is generated for a non-negative offset and a timestamp from 2017 on is recognised by
-- isGeneratedFromKafka.
pub generate_recognised :
    (offset : ℕ) (ts shard : ℤ) (id : SmyteId)
    → generate_from_kafka (pos offset) ts shard ≡ some id
    → pos kafka_backed_smyte_id_start_ms ≤ℤ ts
    → is_generated_from_kafka id ≡ true
unfolding is_generated_from_kafka timestamp machine
generate_recognised offset ts shard id e h =
    let i = generate_inv offset ts shard id e in ground arith
