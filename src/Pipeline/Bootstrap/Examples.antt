-- ===== src/Pipeline/Bootstrap/Examples.antt =====
-- Starts of a server (pipeline/RedisPipelineBootstrap.cpp) with concrete flags.
use smyte_db.Kafka.Offsets.{Helper}
use smyte_db.Pipeline.Bootstrap.Consumers.Restart.{initialize_kafka_consumer-same}
use smyte_db.Pipeline.Bootstrap.Consumers.{SpecialOffsets, initialize_kafka_consumer}
use smyte_db.Prelude.{
  ℕ, ◌≡◌, refl, Bool, List, [], ◌∷◌, true, false, Option, some, arith, codes, bytes_eq,
}
use smyte_db.Prelude.Int.{ℤ, pos, negsuc}
use smyte_db.Codec.Value.Encode.{show_int, decimal}
use smyte_db.Pipeline.Table.{Table, find}
use smyte_db.Pipeline.Config.{Json, text, number, create_from_json}
use smyte_db.RocksDb.{Entry, find_entry}
use smyte_db.RocksDb.Concrete.{sorted_db}
use smyte_db.Pipeline.Bootstrap.Versions.{
  can_apply, can_apply_one_off_flags, persist_version_timestamp,
}
use smyte_db.Pipeline.Bootstrap.Versions.Once.{persist-refused, NotApplied}
use smyte_db.Pipeline.Bootstrap.Families.{GroupConfig, Storage, Families, initialize_rocks_db, elem}
use smyte_db.Pipeline.Bootstrap.Families.Opened.{AreNeeded, initialize_rocks_db-AreNeeded}

-- The conversion of the only number that is read.
abbrev to_int64 : List ℕ → Option ℤ
to_int64 value = some (pos 1000)

-- A database with version 1000.
abbrev versioned : List Entry
versioned = (codes "VersionTimestamp", codes "1000") ∷ []

persisted : persist_version_timestamp to_int64 sorted_db tt (pos 1000) (pos 900) [] ≡ some versioned
unfolding persist_version_timestamp can_apply_one_off_flags can_apply show_int decimal find_entry
    smyte_db.Codec.Value.Encode.decimal_fuel smyte_db.RocksDb.Concrete.apply_all
    smyte_db.RocksDb.Concrete.apply_update smyte_db.RocksDb.Concrete.insert_entry
persisted = refl

read_version : to_int64 (show_int (pos 1000)) ≡ some (pos 1000)
read_version = refl

persist-refused_example :
    NotApplied to_int64 sorted_db tt versioned
      (can_apply_one_off_flags to_int64 sorted_db tt (pos 1000) (pos 950) (some versioned))
persist-refused_example =
    persist-refused to_int64 sorted_db tt (pos 1000) (pos 1000) (pos 900) (pos 950) [] versioned
      versioned persisted refl (omega arith) (omega arith) read_version

-- Two shards are configured, and a third that is there is to drop.
abbrev groups : Table GroupConfig
groups =
    (
      codes "g",
      record {
        start_shard_index = pos 1;
        local_virtual_shard_count = pos 2;
        shard_index_increment = pos 16;
      },
    )
    ∷ []

abbrev drops : Table GroupConfig
drops =
    (
      codes "g",
      record {
        start_shard_index = pos 3;
        local_virtual_shard_count = pos 1;
        shard_index_increment = pos 1;
      },
    )
    ∷ []

abbrev configurators : Table ℕ
configurators = (codes "g", 1) ∷ []

abbrev storage : Storage
storage = record {
  db_exists = true;
  listed = some (codes "default" ∷ codes "g-3" ∷ codes "g-1" ∷ []);
  opens = λ create. true;
  creates = λ name. true;
}

abbrev opened : Families
opened = record {
  column_family_map = codes "default" ∷ codes "g-1" ∷ codes "g-17" ∷ codes "smyte-metadata" ∷ [];
  column_family_group_map = (codes "g", codes "g-1" ∷ codes "g-17" ∷ []) ∷ [];
}

opened_test :
    initialize_rocks_db groups drops configurators storage false true (some false) 2 3 ≡ some opened
unfolding initialize_rocks_db smyte_db.Pipeline.Bootstrap.Families.plan
    smyte_db.Pipeline.Bootstrap.Families.configure
    smyte_db.Pipeline.Bootstrap.Families.open_families
    smyte_db.Pipeline.Bootstrap.Families.group_names smyte_db.Pipeline.Bootstrap.Families.names_from
    smyte_db.Pipeline.Bootstrap.Families.get_column_family_name_in_group
    smyte_db.Pipeline.Bootstrap.Families.elem smyte_db.Pipeline.Bootstrap.Families.assign_all
    smyte_db.Pipeline.Bootstrap.Families.drop_all smyte_db.Pipeline.Bootstrap.Families.all_known
    smyte_db.Pipeline.Bootstrap.Families.missing smyte_db.Pipeline.Bootstrap.Families.erase
    smyte_db.Pipeline.Bootstrap.Families.erase_all smyte_db.Pipeline.Bootstrap.Families.all_elem
    smyte_db.Pipeline.Bootstrap.Families.make_groups
    smyte_db.Pipeline.Bootstrap.Families.all_present show_int decimal
    smyte_db.Codec.Value.Encode.decimal_fuel find bytes_eq smyte_db.Kafka.Offsets.assign
opened_test = refl

initialize_rocks_db-AreNeeded_example : AreNeeded groups drops configurators opened
initialize_rocks_db-AreNeeded_example =
    initialize_rocks_db-AreNeeded groups drops configurators storage false true (some false) 2 3
      opened opened_test

abbrev consumers : List (Bool × Bool)
consumers = (true, true) ∷ (true, false) ∷ []

abbrev entry : Table Json
entry =
    (codes "consumer_name", text (codes "C"))
    ∷ (codes "topic", text (codes "t"))
    ∷ (codes "partition", number (pos 1))
    ∷ (codes "group_id", text (codes "g"))
    ∷ (codes "initial_offset_one_off", number (pos 5))
    ∷ []

abbrev special : SpecialOffsets
special = record { offset_invalid = negsuc 1000; offset_beginning = negsuc 1 }

abbrev parse : List ℕ → Option (List (Table Json))
parse configs = some (entry ∷ [])

-- What the second run leaves of a helper.
abbrev started_helper : Helper
started_helper = record {
  topic_partitions = (codes "~kafka-offset~t~1~", (codes "t", pos 1)) ∷ [];
  last_committed_offsets = (codes "~kafka-offset~t~1~", negsuc 1000) ∷ [];
  high_watermark_offsets = (codes "~kafka-offset~t~1~", negsuc 1000) ∷ [];
  lag_statuses = (codes "~kafka-offset~t~1~", true) ∷ [];
  is_lagging = true;
}

second_run :
    initialize_kafka_consumer to_int64 special sorted_db tt
      (codes "C" ∷ [])
      (pos 1000)
      parse
      (codes "[]")
      true
      0
      0
      (λ i. pos 950)
      versioned
    ≡ some (some started_helper, versioned)
unfolding initialize_kafka_consumer smyte_db.Pipeline.Bootstrap.Consumers.initialize_all
    smyte_db.Pipeline.Bootstrap.Consumers.initialize_one
    smyte_db.Pipeline.Bootstrap.Consumers.apply_one_off create_from_json find bytes_eq
    smyte_db.Pipeline.Bootstrap.Families.elem smyte_db.Kafka.Offsets.link_topic_partition
    smyte_db.Kafka.Offsets.assign smyte_db.Kafka.Offsets.get_offset_key show_int decimal
    smyte_db.Codec.Value.Encode.decimal_fuel can_apply_one_off_flags can_apply find_entry
second_run = refl

abbrev result : Option Helper × List Entry
result = (some started_helper, versioned)

initialize_kafka_consumer-same_example : result.1 ≡ versioned
initialize_kafka_consumer-same_example =
    initialize_kafka_consumer-same to_int64 special sorted_db tt (codes "C" ∷ []) (pos 1000)
      (pos 1000) (pos 900) (λ i. pos 950) [] versioned versioned persisted refl (omega arith)
      (λ i. omega arith) read_version parse (codes "[]") true 0 0 (some started_helper, versioned)
      second_run
