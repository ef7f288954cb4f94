-- ===== src/Kafka/Producer.antt =====
-- infra/kafka/Producer.h and Producer.cpp: what the producer does around librdkafka's, whose answers are
-- arguments. `none` is a LOG(FATAL).
pub mod Termination
mod Examples
use smyte_db.Prelude.{
  ℕ, zero, suc, ◌≡◌, List, [], ◌∷◌, ◌++◌, Bool, true, false, ◌&&◌, not, Option, none, some,
  if◌then◌else◌, codes, ◌==◌, ltb,
}
use smyte_db.Prelude.Int.{ℤ, pos, eqb_ℤ, leb_ℤ}
use smyte_db.Pipeline.Table.{Table}
use smyte_db.Kafka.Consumer.{ErrorCode, err_no_error, err_queue_full, is_ok, all_set}

-- What becomes of a message.
pub data Outcome : Type 0 where
  produced : ℕ → Outcome
  fatal : ErrorCode → Outcome
  out_of_fuel : Outcome

abbrev pub is_queue_full : ErrorCode → Bool
is_queue_full err_queue_full = true
is_queue_full _ = false

-- The loop of produceAsyncFatalOnError from an attempt on, whose answers produceAsync gives; a message is
-- produced with the number of attempts before, each followed by a sleep.
unfoldable pub produce_loop : ℕ → (ℕ → ErrorCode) → ℕ → Outcome
produce_loop zero answers attempt = out_of_fuel
produce_loop (suc fuel) answers attempt =
    let rest = produce_loop fuel answers (suc attempt) in
    if is_ok (answers attempt)
    then produced attempt
    else (if is_queue_full (answers attempt) then rest else fatal (answers attempt))

unfoldable pub produce_async_fatal_on_error : ℕ → (ℕ → ErrorCode) → Outcome
unfolding produce_loop
produce_async_fatal_on_error fuel answers = produce_loop fuel answers 0

module _ {Client : Type 0} (poll : ℕ → Client → Client) (outq_len : Client → ℕ) where
  unfoldable pub ack_loop : ℕ → Client → Option Client
  ack_loop zero client = none
  ack_loop (suc fuel) client =
      let rest = ack_loop fuel (poll 1000 client) in
      if ltb 0 (outq_len client) then rest else some client

  -- waitForAck, which destroy calls too.
  unfoldable pub wait_for_ack : ℕ → Client → Option Client
  unfolding ack_loop
  wait_for_ack fuel client = ack_loop fuel (poll 0 client)

unfoldable pub is_partition_assigned : ℤ → ℤ → Bool
is_partition_assigned partition_ua partition =
    leb_ℤ (pos 0) partition && not (eqb_ℤ partition partition_ua)

pub record Config : Type 0 where
  pub broker_list : List ℕ
  pub has_partitioner : Bool
  pub use_compression : Bool
  pub low_latency : Bool
  pub topic_configs : Table (List ℕ)

abbrev pub when : Bool → Table (List ℕ) → Table (List ℕ)
when b entries = if b then entries else []

-- The settings of initialize in their order, those of the client and those of the topic, which the
-- callbacks stand in by name.
unfoldable pub client_settings : Config → Table (List ℕ)
client_settings config =
    (codes "metadata.broker.list", config.broker_list)
    ∷ (codes "log.connection.close", codes "false")
    ∷ (when config.use_compression ((codes "compression.codec", codes "snappy") ∷ [])
        ++ ((codes "event_cb", [])
            ∷ (codes "dr_cb", [])
            ∷ when config.low_latency ((codes "queue.buffering.max.ms", codes "10") ∷ [])))

unfoldable pub topic_settings : Config → Table (List ℕ)
topic_settings config =
    (codes "request.required.acks", codes "-1")
    ∷ (codes "produce.offset.report", codes "true")
    ∷ (when config.has_partitioner ((codes "partitioner_cb", []) ∷ []) ++ config.topic_configs)

-- initialize, with what librdkafka answers: the settings that it accepts, whether the producer, its
-- topic and the metadata can be had.
unfoldable pub initialize : (List ℕ → List ℕ → Bool) → Bool → Bool → ErrorCode → Config → Bool
initialize accepts creates_producer creates_topic metadata config =
    all_set accepts (client_settings config)
    && (all_set accepts (topic_settings config)
        && (creates_producer && (creates_topic && is_ok metadata)))
