-- ===== src/Pipeline/Database.antt =====
-- pipeline/DatabaseManager.h and DatabaseManager.cpp. The representation of an int64_t in memory,
-- the hash and the results of RocksDB's calls are arguments.
pub mod Keys
pub mod Files
mod Examples
use smyte_db.Prelude.{
  ℕ, ◌+◌, ◌/◌, ◌%◌, List, [], ◌∷◌, ◌++◌, Bool, true, false, ◌||◌, Option, none, some, length, ltb,
  ◌==◌, if◌then◌else◌, codes, bytes_eq,
}
use smyte_db.Prelude.Int.{ℤ}
use smyte_db.Codec.Value.Encode.{decimal}
use smyte_db.Pipeline.Table.{Table, find}

-- encodeInt64 returns all of the buffer.
unfoldable pub encode_int64 : (ℤ → List ℕ) → ℤ → List ℕ → List ℕ
encode_int64 representation value buf = buf ++ representation value

unfoldable pub decode_int64 : (List ℕ → ℤ) → List ℕ → Option ℤ
decode_int64 number value = if length value == 8 then some (number value) else none

unfoldable pub get_shard_num : (List ℕ → ℕ → ℕ) → List ℕ → ℕ → ℕ → ℕ
get_shard_num murmur_hash shard_key shard_count seed = murmur_hash shard_key seed % shard_count

-- hexValues
unfoldable pub hex_value : ℕ → ℕ
hex_value n = if ltb n 10 then 48 + n else 55 + n

abbrev pub is_escaped : ℕ → Bool
is_escaped v = ltb v 33 || (ltb 125 v || v == 37)

-- The loop of escapeKeyStr, with the characters from last to p.
unfoldable pub escape_loop : List ℕ → List ℕ → List ℕ → List ℕ
unfolding hex_value
escape_loop out block [] = out ++ block
escape_loop out block (c ∷ cs) =
    let escaped =
      escape_loop ((out ++ block) ++ (37 ∷ hex_value (c / 16) ∷ hex_value (c % 16) ∷ [])) [] cs in
    let copied = escape_loop out (block ++ c ∷ []) cs in if is_escaped c then escaped else copied

unfoldable pub escape_key_str : List ℕ → List ℕ → List ℕ
unfolding escape_loop
escape_key_str str out = escape_loop out [] str

-- std::equal with the prefix's range: a name that ends earlier differs by its terminating zero.
unfoldable pub starts_with : List ℕ → List ℕ → Bool
starts_with [] name = true
starts_with (p ∷ ps) [] = false
starts_with (p ∷ ps) (c ∷ cs) = let rest = starts_with ps cs in if p == c then rest else false

abbrev pub manifest_prefix : List ℕ
manifest_prefix = codes "/MANIFEST-"

-- "{}:{}" with a name and a size.
abbrev pub with_size : List ℕ → ℕ → List ℕ
with_size name size = name ++ (b':' ∷ decimal size)

unfoldable pub live_names : ℕ → List (List ℕ) → List (List ℕ)
unfolding starts_with
live_names manifest_size [] = []
live_names manifest_size (f ∷ fs) =
    (if starts_with manifest_prefix f then with_size f manifest_size else f)
    ∷ live_names manifest_size fs

unfoldable pub log_names : List (List ℕ × ℕ) → List (List ℕ)
log_names [] = []
log_names ((path, size) ∷ logs) = with_size path size ∷ log_names logs

-- What RocksDB answers to DisableFileDeletions, GetLiveFiles and GetSortedWalFiles; an error is none.
pub record Answers : Type 0 where
  pub disabled : Bool
  pub live_files : Option (List (List ℕ) × ℕ)
  pub wal_files : Option (List (List ℕ × ℕ))

-- Whether files may be deleted, and the list of files behind a call of freeze, with what it returns.
pub record Frozen : Type 0 where
  pub deletions_enabled : Bool
  pub file_list : List (List ℕ)
  pub ok : Bool

abbrev with_logs : List (List ℕ) → List (List ℕ) × ℕ → Option (List (List ℕ × ℕ)) → Frozen
with_logs file_list (files, size) none = record {
  deletions_enabled = false;
  file_list = file_list;
  ok = false;
}
with_logs file_list (files, size) (some logs) = record {
  deletions_enabled = false;
  file_list = file_list ++ (live_names size files ++ log_names logs);
  ok = true;
}

unfoldable pub freeze : Answers → List (List ℕ) → Frozen
unfolding live_names log_names
freeze a file_list =
    if a.disabled
    then elim a.live_files [
      | none ↦ record { deletions_enabled = false; file_list = file_list; ok = false }
      | some files ↦ with_logs file_list files a.wal_files
    ]
    else record { deletions_enabled = true; file_list = file_list; ok = false }

abbrev pub get_column_family : {Handle : Type 0} → Table Handle → List ℕ → Option Handle
get_column_family column_family_map name = find name column_family_map
