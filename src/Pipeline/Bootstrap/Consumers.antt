-- ===== src/Pipeline/Bootstrap/Consumers.antt =====
-- initializeKafkaConsumer, initializeKafkaProducers and initializeScheduledTaskQueues of pipeline/RedisPipelineBootstrap.cpp, over
-- parsed JSON. `none` is a failed CHECK, LOG(FATAL) or an exception. What a factory makes is left out.
pub mod Restart
use smyte_db.Prelude.{
  suc, ◌||◌, ℕ, List, [], ◌∷◌, Bool, true, false, Option, none, some, if◌then◌else◌, codes, length,
  ◌==◌, ◌&&◌,
}
use smyte_db.Prelude.Int.{ℤ, pos, leb_ℤ}
use smyte_db.Pipeline.Table.{Table, find}
use smyte_db.Pipeline.Config.{
  Json, KafkaConsumerConfig, create_from_json, get_string, get_int, get_bool, required, optional,
  to_int,
}
use smyte_db.Kafka.Offsets.{
  new_helper, assign, Helper, link_topic_partition, commit_raw_offset,
  commit_kafka_and_file_offsets,
}
use smyte_db.RocksDb.{RocksDb}
use smyte_db.Pipeline.Bootstrap.Versions.{can_apply_one_off_flags}
use smyte_db.Pipeline.Bootstrap.Families.{elem, all_elem}
use smyte_db.Kafka.Consumer.{is_empty}

-- librdkafka's offsets with a meaning of their own.
pub record SpecialOffsets : Type 0 where
  pub offset_invalid : ℤ
  pub offset_beginning : ℤ

abbrev pub no_factories : List (List ℕ) → Bool
no_factories [] = true
no_factories (name ∷ names) = false

module _ (to_int64 : List ℕ → Option ℤ) (special : SpecialOffsets) (rocks : RocksDb)
    (metadata : rocks.Family) (factories : List (List ℕ)) (version_timestamp_ms : ℤ) where
  open rocks use {Db}

  -- `CHECK(commit…)`
  abbrev pub checked : Option (Bool × Helper × Db) → Option (Helper × Db)
  checked (some (true, h, db)) = some (h, db)
  checked _ = none

  abbrev pub from_beginning :
      KafkaConsumerConfig → List ℕ → Helper → Db → Option Bool → Option (Helper × Db)
  from_beginning config key h db none = none
  from_beginning config key h db (some false) = some (h, db)
  from_beginning config key h db (some true) =
      if is_empty config.object_store_bucket_name
      then checked (
          commit_raw_offset to_int64 special.offset_invalid rocks metadata key
            special.offset_beginning none h db)
      else none

  abbrev pub from_offset :
      KafkaConsumerConfig → List ℕ → Helper → Db → Option Bool → Option (Helper × Db)
  from_offset config key h db none = none
  from_offset config key h db (some false) = some (h, db)
  from_offset config key h db (some true) =
      if is_empty config.object_store_bucket_name
      then checked (
          commit_raw_offset to_int64 special.offset_invalid rocks metadata key
            config.initial_offset_one_off none h db)
      else checked (
          commit_kafka_and_file_offsets to_int64 special.offset_invalid rocks metadata key
            config.initial_offset_one_off (pos 0) none h db)

  -- The one-off flags of a consumer, at a time.
  unfoldable pub apply_one_off :
      ℤ → KafkaConsumerConfig → List ℕ → Helper → Db → Option (Helper × Db)
  apply_one_off now config key h db =
      let can_apply =
        can_apply_one_off_flags to_int64 rocks metadata version_timestamp_ms now (some db) in
      if config.consume_from_beginning_one_off
      then from_beginning config key h db can_apply
      else (if leb_ℤ (pos 0) config.initial_offset_one_off
          then from_offset config key h db can_apply
          else some (h, db))

  abbrev pub linked : ℤ → KafkaConsumerConfig → Db → Option (List ℕ × Helper) → Option (Helper × Db)
  linked now config db none = none
  linked now config db (some (key, h)) = apply_one_off now config key h db

  -- A round of the loop over the configurations, up to the call of the factory.
  unfoldable pub initialize_one :
      ℤ → Helper → Db → Option KafkaConsumerConfig → Option (Helper × Db)
  unfolding apply_one_off
  initialize_one now h db none = none
  initialize_one now h db (some config) =
      if elem config.consumer_name factories
      then linked now config db (
          link_topic_partition to_int64 special.offset_invalid config.topic config.partition
            config.offset_key_suffix h)
      else none

  -- The loop from a round on, with the time of each round.
  unfoldable pub initialize_all :
      (ℕ → ℤ) → ℕ → List (Table Json) → Helper → Db → Option (Helper × Db)
  unfolding initialize_one
  initialize_all clock round [] h db = some (h, db)
  initialize_all clock round (entry ∷ entries) h db =
      elim (initialize_one (clock round) h db (create_from_json special.offset_invalid entry)) [
        | none ↦ none
        | some (h', db') ↦ initialize_all clock (suc round) entries h' db'
      ]

  abbrev pub with_helper : Option (Helper × Db) → Option (Option Helper × Db)
  with_helper none = none
  with_helper (some (h, db)) = some (some h, db)

  -- The helper, if there are consumers. The configurations come from folly's parser, the flag says
  -- whether there is a database manager, and the numbers are those of task processors and task queues.
  unfoldable pub initialize_kafka_consumer :
      (List ℕ → Option (List (Table Json)))
      → List ℕ
      → Bool
      → ℕ
      → ℕ
      → (ℕ → ℤ)
      → Db
      → Option (Option Helper × Db)
  unfolding initialize_all
  initialize_kafka_consumer parse_json configs has_database_manager processors queues clock db =
      if no_factories factories || is_empty configs
      then some (none, db)
      else elim (parse_json configs) [
        | none ↦ none
        | some entries ↦
            if has_database_manager && processors == queues
            then with_helper (initialize_all clock 0 entries new_helper db)
            else none
      ]

-- A producer's settings: its topic, partition, and whether it has low latency, and the additional settings of
-- the topic, which stand in the entry under the names given.
pub record ProducerConfig : Type 0 where
  pub topic : List ℕ
  pub partition : ℤ
  pub low_latency : Bool

infixl 20 ◌>>=◌
abbrev ◌>>=◌ : {A B : Type 0} → Option A → (A → Option B) → Option B
none >>= f = none
some a >>= f = f a

-- An entry of initializeKafkaProducers, with the partition that stands for none.
unfoldable pub producer_config : ℤ → Table Json → Option ProducerConfig
producer_config partition_ua entry = do
  partition ← optional get_int partition_ua (find (codes "partition") entry)
  low_latency ← optional get_bool false (find (codes "low_latency") entry)
  topic ← required get_string (find (codes "topic") entry)
  some (record { topic = topic; partition = to_int partition; low_latency = low_latency })

unfoldable pub initialize_kafka_producers : ℤ → Table (Table Json) → Option (Table ProducerConfig)
initialize_kafka_producers partition_ua [] = some []
initialize_kafka_producers partition_ua ((name, entry) ∷ entries) = do
  config ← producer_config partition_ua entry
  rest ← initialize_kafka_producers partition_ua entries
  some (assign name config rest)

-- initializeScheduledTaskQueues: a queue for each processor, if its column family is there.
unfoldable pub initialize_scheduled_task_queues :
    Bool → List (List ℕ) → List (List ℕ) → Option (List (List ℕ))
initialize_scheduled_task_queues has_database_manager column_family_map names =
    if has_database_manager && all_elem column_family_map names then some names else none
