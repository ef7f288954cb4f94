-- ===== src/Kafka/Consumer.antt =====
-- infra/kafka/Consumer.h and Consumer.cpp: a consumer of librdkafka. Messages are of any type; what the
-- broker's consumer answers, the clock and the flag are the environment. `none` is a failed CHECK or
-- LOG(FATAL). The topic metadata and the settings that librdkafka accepts are arguments.
pub mod Batch
pub mod Start
mod Examples
use smyte_db.Prelude.{
  ℕ, zero, suc, ◌+◌, List, [], ◌∷◌, ◌++◌, Bool, true, false, ◌&&◌, ◌||◌, not, Option, none, some,
  length, ltb, if◌then◌else◌, codes, bytes_eq,
}
use smyte_db.Prelude.Int.{ℤ, pos, negsuc, eqb_ℤ, leb_ℤ, ltb_ℤ}
use smyte_db.Codec.Value.Encode.{show_int}
use smyte_db.Pipeline.Table.{Table}
use smyte_db.Kafka.Offsets.{Helper, set_no_lag}

-- RdKafka::ErrorCode, as far as the code looks at it.
pub data ErrorCode : Type 0 where
  err_no_error : ErrorCode
  err_timed_out : ErrorCode
  err_partition_eof : ErrorCode
  err_queue_full : ErrorCode
  err_other : ErrorCode

-- RdKafka's message, with its error code.
pub record Message (Payload : Type 0) : Type 0 where
  pub err : ErrorCode
  pub payload : Payload

-- processError; only the end of the partition changes the state.
unfoldable pub process_error : List ℕ → ErrorCode → Helper → Option Helper
process_error offset_key err_partition_eof helper = set_no_lag offset_key helper
process_error offset_key _ helper = some helper

abbrev pub k_max_batch_size : ℕ
k_max_batch_size = 10000

abbrev pub is_ok : ErrorCode → Bool
is_ok err_no_error = true
is_ok _ = false

-- A round of the loop: the test of the flag and the time, and the answer of consume, if any.
pub record Round (Payload : Type 0) : Type 0 where
  pub goes_on : Bool
  pub answer : Option (Message Payload)

module _ {Payload : Type 0} (offset_key : List ℕ) where
  abbrev pub process_one :
      Message Payload → Option (Helper × List Payload) → Option (Helper × List Payload)
  process_one msg none = none
  process_one msg (some (helper, processed)) = some (helper, msg.payload ∷ processed)

  abbrev pub stop_at_error : Option Helper → Option (Helper × List Payload)
  stop_at_error none = none
  stop_at_error (some helper) = some (helper, [])

  -- The loop of consumeBatch with the rounds that kMaxBatchSize leaves, the rounds so far, and what
  -- each round meets: the helper, and the messages processed.
  unfoldable pub consume_loop :
      (ℕ → Round Payload) → ℕ → ℕ → Helper → Option (Helper × List Payload)
  consume_loop rounds zero round helper = some (helper, [])
  consume_loop rounds (suc room) round helper =
      let rest = consume_loop rounds room (suc round) helper in
      if (rounds round).goes_on
      then elim (rounds round).answer [
        | none ↦ some (helper, [])
        | some msg ↦
            if is_ok msg.err
            then process_one msg rest
            else stop_at_error (process_error offset_key msg.err helper)
      ]
      else some (helper, [])

  unfoldable pub consume_batch : (ℕ → Round Payload) → Helper → Option (Helper × List Payload)
  unfolding consume_loop
  consume_batch rounds helper = consume_loop rounds k_max_batch_size 0 helper

-- commitSync and both commitAsync, from librdkafka's answer.
unfoldable pub commit : ErrorCode → Bool
commit error_code = is_ok error_code

-- The fields that the constructor fills.
pub record Config : Type 0 where
  pub broker_list : List ℕ
  pub topic_str : List ℕ
  pub partition : ℤ
  pub group_id : List ℕ
  pub low_latency : Bool

-- The settings of init, in its order.
unfoldable pub settings : Config → Table (List ℕ)
settings config =
    (
      codes "client.id",
      codes "cpp_client_" ++ (config.topic_str ++ (b'_' ∷ show_int config.partition)),
    )
    ∷ (codes "group.id", config.group_id)
    ∷ (codes "metadata.broker.list", config.broker_list)
    ∷ (codes "enable.auto.commit", codes "false")
    ∷ (codes "message.max.bytes", codes "1000000")
    ∷ (codes "socket.keepalive.enable", codes "true")
    ∷ (codes "log.connection.close", codes "false")
    ∷ (codes "statistics.interval.ms", codes "5000")
    ∷ (codes "api.version.request", codes "true")
    ∷ (if config.low_latency
        then (codes "fetch.error.backoff.ms", codes "5")
          ∷ (codes "fetch.wait.max.ms", codes "5")
          ∷ []
        else [])

-- setConf, so many times.
unfoldable pub all_set : (List ℕ → List ℕ → Bool) → Table (List ℕ) → Bool
all_set accepts [] = true
all_set accepts ((name, value) ∷ rest) = accepts name value && all_set accepts rest

-- What librdkafka answers: the settings it accepts, whether the objects can be created (with the
-- callback and the setting of the topic), the topics of the metadata with their number
-- of partitions, if they can be had, and whether the assignment succeeds.
pub record Broker : Type 0 where
  pub accepts : List ℕ → List ℕ → Bool
  pub creates : Bool
  pub topics : Option (Table ℕ)
  pub assigns : Bool

unfoldable pub partition_exists : Config → Table ℕ → Bool
partition_exists config [] = false
partition_exists config ((topic, partitions) ∷ rest) =
    (bytes_eq topic config.topic_str
      && (leb_ℤ (pos 0) config.partition && ltb_ℤ config.partition (pos partitions)))
    || partition_exists config rest

abbrev pub has_partition : Config → Option (Table ℕ) → Bool
has_partition config none = false
has_partition config (some topics) = partition_exists config topics

abbrev pub is_empty : List ℕ → Bool
is_empty [] = true
is_empty (c ∷ cs) = false

module _ (offset_stored offset_invalid : ℤ) where
  -- The offset to start from; the second argument is the one that loadCommittedKafkaOffset loads.
  abbrev pub chosen_offset : ℤ → ℤ → ℤ
  chosen_offset initial_offset committed_offset =
      if eqb_ℤ initial_offset offset_stored then committed_offset else initial_offset

  -- init: the offset that the partition is assigned with.
  unfoldable pub init : Config → Broker → ℤ → ℤ → Option ℤ
  init config broker committed_offset initial_offset =
      if not (eqb_ℤ (chosen_offset initial_offset committed_offset) offset_invalid)
        && (not (is_empty config.group_id)
            && (all_set broker.accepts (settings config)
                && (broker.creates && (has_partition config broker.topics && broker.assigns))))
      then some (chosen_offset initial_offset committed_offset)
      else none
