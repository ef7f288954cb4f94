-- ===== src/Kafka/Consumer/Start.antt =====
-- What init of infra/kafka/Consumer.cpp makes sure of.
use smyte_db.Prelude.{
  ℕ, ◌≡◌, refl, List, [], ◌∷◌, true, false, ◌&&◌, not, Option, none, some, bytes_eq, bytes_eq_sound,
  if-some, sym, subst, &&-both, ||-either, arith, ◌⊎◌, inl, inr,
}
use smyte_db.Prelude.Int.{ℤ, pos, leb_ℤ, ltb_ℤ, eqb_ℤ}
use smyte_db.Pipeline.Table.{Table}
use smyte_db.Kafka.Consumer.{
  Config, Broker, settings, all_set, partition_exists, has_partition, is_empty, chosen_offset, init,
}

-- A topic of the metadata that has the partition.
abbrev pub HasPartition : List ℕ → ℤ → Table ℕ → Type 0
HasPartition topic partition [] = ⊥
HasPartition topic partition ((t, partitions) ∷ rest) =
    ((t ≡ topic) × (leb_ℤ (pos 0) partition ≡ true) × (ltb_ℤ partition (pos partitions) ≡ true))
    ⊎ HasPartition topic partition rest

partition_exists-HasPartition :
    (config : Config) (topics : Table ℕ)
    → partition_exists config topics ≡ true
    → HasPartition config.topic_str config.partition topics
unfolding partition_exists
partition_exists-HasPartition config [] h = absurd (cc)
partition_exists-HasPartition config ((t, n) ∷ rest) h =
    elim (||-either
      (bytes_eq t config.topic_str
        && (leb_ℤ (pos 0) config.partition && ltb_ℤ config.partition (pos n)))
      (partition_exists config rest) h) [
        | inl here ↦
            let (same, in_range) =
              &&-both (bytes_eq t config.topic_str)
                (leb_ℤ (pos 0) config.partition && ltb_ℤ config.partition (pos n)) here in
            let (low, high) =
              &&-both (leb_ℤ (pos 0) config.partition) (ltb_ℤ config.partition (pos n)) in_range in
            inl (bytes_eq_sound t config.topic_str same, low, high)
        | inr further ↦ inr (partition_exists-HasPartition config rest further)
      ]

-- The offset that a consumer is assigned with is the one asked for, or the committed one if the stored offset is asked for;
-- it is not the invalid offset, librdkafka has accepted every setting, and the topic
-- has the partition.
pub init_lem :
    (offset_stored offset_invalid : ℤ) (config : Config) (broker : Broker)
    (committed_offset initial_offset offset : ℤ)
    → init offset_stored offset_invalid config broker committed_offset initial_offset ≡ some offset
    → (offset ≡ chosen_offset offset_stored offset_invalid initial_offset committed_offset)
      × (eqb_ℤ offset offset_invalid ≡ false)
      × (all_set broker.accepts (settings config) ≡ true)
      × ((topics : Table ℕ) × (broker.topics ≡ some topics)
          × HasPartition config.topic_str config.partition topics)
unfolding init
init_lem offset_stored offset_invalid config broker committed_offset initial_offset offset h =
    let chosen = chosen_offset offset_stored offset_invalid initial_offset committed_offset in
    let (checked, same) = if-some _ (some chosen) offset h in
    let (valid, checked₁) = &&-both (not (eqb_ℤ chosen offset_invalid)) _ checked in
    let (grouped, checked₂) = &&-both (not (is_empty config.group_id)) _ checked₁ in
    let (all, checked₃) = &&-both (all_set broker.accepts (settings config)) _ checked₂ in
    let (created, checked₄) = &&-both broker.creates _ checked₃ in
    let (partitioned, assigned) =
      &&-both (has_partition config broker.topics) broker.assigns checked₄ in
    let is_chosen : chosen ≡ offset = cc in
    (
      sym is_chosen,
      subst (λ o. eqb_ℤ o offset_invalid ≡ false) is_chosen (ground arith),
      all,
      known broker.topics refl partitioned,
    )
  where
    known :
        (o : Option (Table ℕ))
        → broker.topics ≡ o
        → has_partition config o ≡ true
        → (topics : Table ℕ) × (broker.topics ≡ some topics)
          × HasPartition config.topic_str config.partition topics
    known none e p = absurd (cc)
    known (some topics) e p = (topics, e, partition_exists-HasPartition config topics p)
