-- ===== src/Kafka/Consumer/Examples.antt =====
-- The consumer of infra/kafka/Consumer.h on concrete messages.
use smyte_db.Prelude.Int.{negsuc}
use smyte_db.Kafka.Consumer.{init}
use smyte_db.Prelude.{ℕ, zero, suc, ◌≡◌, refl, [], ◌∷◌, Bool, true, false, some, codes, bytes_eq}
use smyte_db.Prelude.Int.{pos}
use smyte_db.Pipeline.Table.{find}
use smyte_db.Kafka.Offsets.{Helper, set_no_lag}
use smyte_db.Kafka.Consumer.{
  ErrorCode, err_no_error, err_partition_eof, Message, Round, consume_batch, Config, Broker,
  settings, all_set, chosen_offset, init,
}
use smyte_db.Kafka.Consumer.Batch.{IsBatch, consume_batch-IsBatch}

-- Two messages, then the end of the partition.
abbrev rounds : ℕ → Round ℕ
rounds zero = record { goes_on = true; answer = some (record { err = err_no_error; payload = 7 }) }
rounds (suc zero) = record {
  goes_on = true;
  answer = some (record { err = err_no_error; payload = 8 });
}
rounds (suc (suc n)) = record {
  goes_on = true;
  answer = some (record { err = err_partition_eof; payload = 0 });
}

abbrev helper : Bool → Helper
helper lagging = record {
  topic_partitions = [];
  last_committed_offsets = [];
  high_watermark_offsets = [];
  lag_statuses = (codes "k", lagging) ∷ [];
  is_lagging = lagging;
}

-- The end of the partition ends the lag.
consume_batch_test :
    consume_batch (codes "k") rounds (helper true) ≡ some (helper false, 7 ∷ 8 ∷ [])
unfolding consume_batch smyte_db.Kafka.Consumer.consume_loop smyte_db.Kafka.Consumer.process_error
    set_no_lag bytes_eq find smyte_db.Kafka.Offsets.assign smyte_db.Kafka.Offsets.any_lagging
consume_batch_test = refl

consume_batch-IsBatch_example :
    IsBatch
      (codes "k")
      rounds
      10000
      0
      (helper true)
      (consume_batch (codes "k") rounds (helper true))
unfolding set_no_lag bytes_eq find smyte_db.Kafka.Offsets.assign smyte_db.Kafka.Offsets.any_lagging
consume_batch-IsBatch_example =
    consume_batch-IsBatch (codes "k") rounds (helper true) (helper false) refl

abbrev config : Config
config = record {
  broker_list = codes "localhost:9092";
  topic_str = codes "t";
  partition = pos 1;
  group_id = codes "g";
  low_latency = true;
}

abbrev broker : Broker
broker = record {
  accepts = λ name value. true;
  creates = true;
  topics = some ((codes "t", 2) ∷ []);
  assigns = true;
}

-- The stored offset is asked for, which is -1000, and 42 is committed.
init_test : init (negsuc 999) (negsuc 1000) config broker (pos 42) (negsuc 999) ≡ some (pos 42)
unfolding init smyte_db.Kafka.Consumer.all_set smyte_db.Kafka.Consumer.settings
    smyte_db.Kafka.Consumer.partition_exists bytes_eq
init_test = refl
