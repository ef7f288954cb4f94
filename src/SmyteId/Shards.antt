-- ===== src/SmyteId/Shards.antt =====
-- The two shard numbers of infra/SmyteId.h.
use smyte_db.Prelude.{ℕ, ◌+◌, ◌-◌, ◌%◌, ◌<◌, ◌≡◌, arith, ◌⊎◌, inl, inr, dec_lt}
use smyte_db.Prelude.Int.{ℤ, pos, negsuc, ◌+ℤ◌, ◌≤ℤ◌, rem}
use smyte_db.SmyteId.{
  SmyteId, get_shard_index, get_virtual_shard, machine_base, machine_size, virtual_shard_count,
}

-- For every 64-bit id, negative ones included, and every positive shard count, the shard index lies
-- between 0 and the shard count, 0 included.
pub get_shard_index_range :
    (id : SmyteId) (count : ℕ)
    → 0 < count
    → (pos 0 ≤ℤ get_shard_index id (pos count))
      × (get_shard_index id (pos count) +ℤ pos 1 ≤ℤ pos count)
unfolding get_shard_index
get_shard_index_range id count h = shard_range id.smyte_id
  where
    shard_range :
        (x : ℤ)
        → (pos 0 ≤ℤ get_shard_index (record { smyte_id = x }) (pos count))
          × (get_shard_index (record { smyte_id = x }) (pos count) +ℤ pos 1 ≤ℤ pos count)
    shard_range (pos n) = (omega arith, grind arith)
    shard_range (negsuc n) = (omega arith, grind arith)

-- What get_virtual_shard makes of an id.
abbrev pub Placement : SmyteId → Type 0
Placement id =
    ((rem id.smyte_id machine_size +ℤ pos 1 ≤ℤ pos machine_base)
      × (get_virtual_shard id ≡ negsuc 0))
    ⊎ ((v : ℕ) × (rem id.smyte_id machine_size ≡ pos (machine_base + v))
        × (get_virtual_shard id ≡ pos v)
        × (v < virtual_shard_count))

virtual_shard_of : (x : ℤ) → Placement (record { smyte_id = x })
unfolding get_virtual_shard
virtual_shard_of (pos n) = elim (dec_lt (n % 8192) 7168) [
  | yes h ↦ inl (ground arith, ground arith)
  | no h ↦ inr (n % 8192 - 7168, ground arith, ground arith, ground arith)
]
virtual_shard_of (negsuc n) = inl (ground arith, ground arith)

-- The virtual shard of an id is -1 if the remainder of the id by machine_size lies below
-- machine_base, as it does for every negative id; if not, it is the remainder's distance from
-- machine_base, which is below virtual_shard_count.
pub get_virtual_shard_cases : (id : SmyteId) → Placement id
get_virtual_shard_cases id = virtual_shard_of id.smyte_id
