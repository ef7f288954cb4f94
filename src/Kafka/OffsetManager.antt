-- ===== src/Kafka/OffsetManager.antt =====
-- infra/kafka/OffsetManager.h and OffsetManager.cpp: offsets committed to the broker and fetched from it. The functions
-- of librdkafka are a record, whose laws say that a list of partitions finds the offset that was set in
-- it, and that the broker gives back what a blocking commit sent. `none` is a failed CHECK.
pub mod Committed
mod Examples
use smyte_db.Prelude.{
  ℕ, List, [], ◌∷◌, ◌++◌, ◌≡◌, Bool, true, false, ◌&&◌, Option, none, some, if◌then◌else◌, codes,
  not,
}
use smyte_db.Prelude.Int.{ℤ, pos}
use smyte_db.Codec.Value.Encode.{show_int}
use smyte_db.Pipeline.Table.{Table}
use smyte_db.Kafka.Consumer.{all_set, is_empty}

-- A partition in a list: whether it carries an error, and its offset.
pub record TopicPartition : Type 0 where
  pub failed : Bool
  pub offset : ℤ

-- `true` is RD_KAFKA_RESP_ERR_NO_ERROR.
pub record Rdkafka : Type 1 where
  pub Cluster : Type 0
  pub TopicPartitions : Type 0
  pub set_offset : List ℕ → ℤ → ℤ → TopicPartitions → Bool × TopicPartitions
  pub find : List ℕ → ℤ → TopicPartitions → Option TopicPartition
  pub commit : Bool → TopicPartitions → Cluster → Bool × Cluster
  pub committed : ℕ → Cluster → TopicPartitions → Bool × TopicPartitions
  pub find-set_offset :
      (topic : List ℕ) (partition offset : ℤ) (list : TopicPartitions)
      → (set_offset topic partition offset list).0 ≡ true
      → (p : TopicPartition) × (find topic partition (set_offset topic partition offset list).1
          ≡ some p)
        × (p.offset ≡ offset)
  pub committed-commit :
      (timeout_ms : ℕ) (topic : List ℕ) (partition : ℤ) (offset : ℕ) (list : TopicPartitions)
      (cluster : Cluster) (p q : TopicPartition)
      → (commit false list cluster).0 ≡ true
      → find topic partition list ≡ some p
      → p.offset ≡ pos offset
      → (committed timeout_ms (commit false list cluster).1 list).0 ≡ true
      → find topic partition (committed timeout_ms (commit false list cluster).1 list).1 ≡ some q
      → q.failed ≡ false
      → q.offset ≡ pos offset

-- The settings of init in their order, with the number of the signal SIGIO.
unfoldable pub settings : List ℕ → List ℕ → ℤ → List ℕ → ℤ → Table (List ℕ)
settings broker_list topic partition group_id sigio =
    (codes "client.id", codes "cpp_store_client_" ++ (topic ++ (b'_' ∷ show_int partition)))
    ∷ (codes "group.id", group_id)
    ∷ (codes "metadata.broker.list", broker_list)
    ∷ (codes "socket.keepalive.enable", codes "true")
    ∷ (codes "log.connection.close", codes "false")
    ∷ (codes "internal.termination.signal", show_int sigio)
    ∷ []

module _ (rdkafka : Rdkafka) (topic : List ℕ) (partition : ℤ) where
  open rdkafka use {Cluster, TopicPartitions, set_offset, find, commit, committed}

  abbrev pub offset_of : Option TopicPartition → Option (Option ℤ)
  offset_of none = none
  offset_of (some p) = some (if p.failed then none else some p.offset)

  abbrev pub read_offset : Bool × TopicPartitions → Option (Option ℤ × TopicPartitions)
  read_offset (false, list) = some (none, list)
  read_offset (true, list) = elim (offset_of (find topic partition list)) [
    | none ↦ none
    | some offset ↦ some (offset, list)
  ]

  -- The offset, if the operation succeeds, and the list as it is filled in.
  unfoldable pub committed_offset :
      ℕ → Cluster → TopicPartitions → Option (Option ℤ × TopicPartitions)
  committed_offset timeout_ms cluster list = read_offset (committed timeout_ms cluster list)

  abbrev pub commit_list :
      Bool → Cluster → Bool × TopicPartitions → Bool × Cluster × TopicPartitions
  commit_list async cluster (false, list) = (false, cluster, list)
  commit_list async cluster (true, list) =
      let (ok, cluster') = commit async list cluster in (ok, cluster', list)

  unfoldable pub commit_offset :
      ℤ → Bool → Cluster → TopicPartitions → Bool × Cluster × TopicPartitions
  commit_offset offset async cluster list =
      commit_list async cluster (set_offset topic partition offset list)

  abbrev pub fetched : Option (Option ℤ × TopicPartitions) → Option TopicPartitions
  fetched (some (some offset, list)) = some list
  fetched _ = none

  -- init, with the settings that librdkafka accepts, whether it creates the consumer, and the list with the partition
  -- if it can be added.
  unfoldable pub init :
      (List ℕ → List ℕ → Bool)
      → List ℕ
      → List ℕ
      → ℤ
      → Bool
      → Option TopicPartitions
      → Cluster
      → Option TopicPartitions
  unfolding committed_offset
  init accepts broker_list group_id sigio creates none cluster = none
  init accepts broker_list group_id sigio creates (some list) cluster =
      if not (is_empty group_id)
        && (all_set accepts (settings broker_list topic partition group_id sigio) && creates)
      then fetched (committed_offset 5000 cluster list)
      else none
