-- ===== src/Pipeline/Config/Examples.antt =====
-- A configuration of a consumer that starts from the beginning.
use smyte_db.Prelude.{◌≡◌, [], true, false, some, codes, arith}
use smyte_db.Prelude.Int.{pos, negsuc}
use smyte_db.Pipeline.Config.{KafkaConsumerConfig, create_from_json}
use smyte_db.Pipeline.Config.Complete.{to_json, create_from_json-to_json}

abbrev counter_consumer : KafkaConsumerConfig
counter_consumer = record {
  consumer_name = codes "counter";
  topic = codes "clicks";
  partition = pos 3;
  group_id = codes "g";
  offset_key_suffix = [];
  consume_from_beginning_one_off = true;
  initial_offset_one_off = negsuc 1000;
  object_store_bucket_name = [];
  object_store_object_name_prefix = [];
  low_latency = false;
}

create_from_json-to_json_example :
    create_from_json (negsuc 1000) (to_json counter_consumer) ≡ some counter_consumer
create_from_json-to_json_example =
    create_from_json-to_json (negsuc 1000) counter_consumer (omega arith)
