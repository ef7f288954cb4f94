-- ===== src/Kafka/Offsets.antt =====
-- infra/kafka/ConsumerHelper.h and ConsumerHelper.cpp. The std::map members are association lists.
-- folly::to<int64_t> is an argument, with `none` for its exception, and so is librdkafka's invalid
-- offset. `none` as the result of an operation is a failed CHECK.
-- A Get of RocksDB is taken not to fail.
pub mod Encoding
pub mod Stored
pub mod Lag
mod Examples
use smyte_db.Prelude.{
  ℕ, ◌+◌, ◌-◌, List, [], ◌∷◌, ◌++◌, Bool, true, false, ◌||◌, ◌&&◌, Option, none, some, length, ◌==◌,
  if◌then◌else◌, bytes_eq, codes, take, drop, replicate,
}
use smyte_db.Prelude.Int.{ℤ, pos, negsuc, leb_ℤ, eqb_ℤ}
use smyte_db.Codec.Value.Encode.{decimal, show_int}
use smyte_db.Pipeline.Table.{Table, find}
use smyte_db.RocksDb.{RocksDb}

-- The members behind the database. A topic's partition is a number.
pub record Helper : Type 0 where
  pub topic_partitions : Table (List ℕ × ℤ)
  pub last_committed_offsets : Table ℤ
  pub high_watermark_offsets : Table ℤ
  pub lag_statuses : Table Bool
  pub is_lagging : Bool

abbrev pub new_helper : Helper
new_helper = record {
  topic_partitions = [];
  last_committed_offsets = [];
  high_watermark_offsets = [];
  lag_statuses = [];
  is_lagging = true;
}

-- `map[key] = value`
unfoldable pub assign : {A : Type 0} → List ℕ → A → Table A → Table A
assign key v [] = (key, v) ∷ []
assign key v ((k, old) ∷ t) =
    let rest = assign key v t in if bytes_eq k key then (k, v) ∷ t else (k, old) ∷ rest

unfoldable pub any_lagging : Table Bool → Bool
any_lagging [] = false
any_lagging ((k, lagging) ∷ t) = lagging || any_lagging t

unfoldable pub encode_offset : ℤ → List ℕ
encode_offset offset = show_int offset

-- "{:020d}"
unfoldable pub padded : ℕ → List ℕ
padded n = replicate (20 - length (decimal n)) b'0' ++ decimal n

unfoldable pub encode_kafka_and_file_offsets : ℤ → ℤ → Option (List ℕ)
unfolding padded
encode_kafka_and_file_offsets (pos kafka_offset) (pos file_offset) =
    some (padded kafka_offset ++ (b':' ∷ padded file_offset))
encode_kafka_and_file_offsets _ _ = none

unfoldable pub get_offset_key : List ℕ → ℤ → List ℕ → List ℕ
get_offset_key topic partition offset_key_suffix =
    codes "~kafka-offset~"
    ++ (topic ++ (codes "~" ++ (show_int partition ++ (codes "~" ++ offset_key_suffix))))

-- Both setters: the key must be there.
unfoldable pub set_offset : List ℕ → ℤ → Table ℤ → Option (Table ℤ)
unfolding assign
set_offset key offset t = elim (find key t) [ none ↦ none | some old ↦ some (assign key offset t) ]

unfoldable pub set_last_committed_offset : List ℕ → ℤ → Helper → Option Helper
unfolding set_offset
set_last_committed_offset key offset h = elim (set_offset key offset h.last_committed_offsets) [
  | none ↦ none
  | some t ↦ some (record h { last_committed_offsets = t })
]

unfoldable pub set_high_watermark_offset : List ℕ → ℤ → Helper → Option Helper
unfolding set_offset
set_high_watermark_offset key offset h = elim (set_offset key offset h.high_watermark_offsets) [
  | none ↦ none
  | some t ↦ some (record h { high_watermark_offsets = t })
]

-- setNoLag behind its first return.
abbrev catch_up : List ℕ → Helper → Option Bool → Option Helper
catch_up key h none = none
catch_up key h (some old) =
    let statuses = assign key false h.lag_statuses in
    some (record h {
      lag_statuses = statuses;
      is_lagging = if any_lagging statuses then h.is_lagging else false;
    })

unfoldable pub set_no_lag : List ℕ → Helper → Option Helper
unfolding assign any_lagging
set_no_lag key h = if h.is_lagging then catch_up key h (find key h.lag_statuses) else some h

abbrev pub set_lag_status : Bool → Helper → Helper
set_lag_status lagging h = record h { is_lagging = lagging }

-- updateStats, with the parser of the statistics: the topic's and partition's offset in them, or the
-- invalid one.
unfoldable pub update_stats :
    ℤ → (List ℕ → List ℕ × ℤ → ℤ) → List ℕ → List ℕ → Helper → Option Helper
unfolding set_high_watermark_offset
update_stats offset_invalid parse stats_json key h = elim (find key h.topic_partitions) [
  | none ↦ none
  | some topic_partition ↦
      if eqb_ℤ (parse stats_json topic_partition) offset_invalid
      then some h
      else set_high_watermark_offset key (parse stats_json topic_partition) h
]

module _ (to_int64 : List ℕ → Option ℤ) (offset_invalid : ℤ) where
  unfoldable pub decode_offset : List ℕ → ℤ
  decode_offset value = elim (to_int64 value) [ none ↦ offset_invalid | some offset ↦ offset ]

  abbrev pub read_offset : Option (List ℕ) → ℤ
  read_offset none = offset_invalid
  read_offset (some value) = decode_offset value

  abbrev both : Option ℤ → Option ℤ → Option (ℤ × ℤ)
  both none y = none
  both (some x) none = none
  both (some x) (some y) = some (x, y)

  unfoldable pub decode_kafka_and_file_offsets : List ℕ → Option (ℤ × ℤ)
  decode_kafka_and_file_offsets value =
      if length value == 41
      then both (to_int64 (take 20 value)) (to_int64 (take 20 (drop 21 value)))
      else none

  abbrev pub read_offsets : Option (List ℕ) → Option (ℤ × ℤ)
  read_offsets none = none
  read_offsets (some value) = decode_kafka_and_file_offsets value

  abbrev pub committed_part : Option (ℤ × ℤ) → ℤ
  committed_part none = offset_invalid
  committed_part (some (kafka_offset, file_offset)) = kafka_offset

  unfoldable pub link_topic_partition : List ℕ → ℤ → List ℕ → Helper → Option (List ℕ × Helper)
  unfolding assign
  link_topic_partition topic partition suffix h =
      let key = get_offset_key topic partition suffix in
      elim (find key h.topic_partitions) [
        | some linked ↦ none
        | none ↦ some (
          key,
          record {
            topic_partitions = assign key (topic, partition) h.topic_partitions;
            last_committed_offsets = assign key offset_invalid h.last_committed_offsets;
            high_watermark_offsets = assign key offset_invalid h.high_watermark_offsets;
            lag_statuses = assign key true h.lag_statuses;
            is_lagging = h.is_lagging;
          },
        )
      ]

module _ (to_int64 : List ℕ → Option ℤ) (offset_invalid : ℤ) (rocks : RocksDb)
    (metadata : rocks.Family) where
  open rocks use {Db, Batch, empty_batch, put, write, get}

  abbrev pub given_or_own : Option Batch → Batch
  given_or_own none = empty_batch
  given_or_own (some b) = b

  -- With the caller's batch, or with one of its own as DB::Put does.
  unfoldable pub commit_raw_offset_value : List ℕ → List ℕ → Option Batch → Db → Bool × Db
  commit_raw_offset_value key value batch db =
      let (status, db') = write (put metadata key value (given_or_own batch)) db in
      (elim status [ none ↦ true | some text ↦ false ], db')

  abbrev pub remember : List ℕ → ℤ → Helper → Bool × Db → Option (Bool × Helper × Db)
  remember key offset h (false, db) = some (false, h, db)
  remember key offset h (true, db) = elim (set_last_committed_offset key offset h) [
    | none ↦ none
    | some h' ↦ some (true, h', db)
  ]

  unfoldable pub commit_raw_offset :
      List ℕ → ℤ → Option Batch → Helper → Db → Option (Bool × Helper × Db)
  commit_raw_offset key offset batch h db =
      remember key offset h (commit_raw_offset_value key (encode_offset offset) batch db)

  unfoldable pub commit_next_process_offset :
      List ℕ → ℤ → Option Batch → Helper → Db → Option (Bool × Helper × Db)
  commit_next_process_offset key offset batch h db =
      if leb_ℤ (pos 0) offset
      then remember key offset h (commit_raw_offset_value key (encode_offset offset) batch db)
      else none

  -- commitNextProcessKafkaAndFileOffsets and commitRawKafkaAndFileOffset, whose CHECKs are the same.
  unfoldable pub commit_kafka_and_file_offsets :
      List ℕ → ℤ → ℤ → Option Batch → Helper → Db → Option (Bool × Helper × Db)
  commit_kafka_and_file_offsets key kafka_offset file_offset batch h db =
      elim (encode_kafka_and_file_offsets kafka_offset file_offset) [
        | none ↦ none
        | some value ↦ remember key kafka_offset h (commit_raw_offset_value key value batch db)
      ]

  -- The offset that is remembered and returned.
  unfoldable pub load_committed_offset_from_db : List ℕ → Helper → Db → Option (ℤ × Helper)
  load_committed_offset_from_db key h db =
      let offset = read_offset to_int64 offset_invalid (get metadata key db) in
      elim (set_last_committed_offset key offset h) [ none ↦ none | some h' ↦ some (offset, h') ]

  -- The offsets that were found, if any.
  unfoldable pub load_committed_kafka_and_file_offsets_from_db :
      List ℕ → Helper → Db → Option (Option (ℤ × ℤ) × Helper)
  load_committed_kafka_and_file_offsets_from_db key h db =
      let offsets = read_offsets to_int64 offset_invalid (get metadata key db) in
      elim (set_last_committed_offset key (committed_part to_int64 offset_invalid offsets) h) [
        | none ↦ none
        | some h' ↦ some (offsets, h')
      ]
