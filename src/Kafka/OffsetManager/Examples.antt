-- ===== src/Kafka/OffsetManager/Examples.antt =====
-- The manager of infra/kafka/OffsetManager.h on a broker with one partition.
use smyte_db.Prelude.{ℕ, ◌≡◌, refl, true, false, some, codes}
use smyte_db.Prelude.Int.{ℤ, pos, negsuc}
use smyte_db.Kafka.OffsetManager.{
  Rdkafka, TopicPartition, settings, init, committed_offset, commit_offset,
}
use smyte_db.Kafka.Consumer.{all_set}

abbrev at : ℤ → TopicPartition
at offset = record { failed = false; offset = offset }

same :
    (offset : ℕ) (list p q : TopicPartition)
    → some list ≡ some p
    → p.offset ≡ pos offset
    → some (at list.offset) ≡ some q
    → q.offset ≡ pos offset
same offset list p q found is_p found' = cc

-- The cluster is the offset that it keeps, the list its only partition.
abbrev one_partition : Rdkafka
one_partition = record {
  Cluster = ℤ;
  TopicPartitions = TopicPartition;
  set_offset = λ topic partition offset list. (true, at offset);
  find = λ topic partition list. some list;
  commit = λ async list cluster. (true, list.offset);
  committed = λ timeout_ms cluster list. (true, at cluster);
  find-set_offset = λ topic partition offset list h. (at offset, refl, refl);
  committed-commit =
      λ timeout_ms topic partition offset list cluster p q h found is_p h' found' unfailed.
        same offset list p q found is_p found';
}

commit_offset_test :
    commit_offset one_partition (codes "t") (pos 0) (pos 7) false (pos 3) (at (pos 1))
    ≡ (true, pos 7, at (pos 7))
unfolding commit_offset
commit_offset_test = refl

committed_offset_test :
    committed_offset one_partition (codes "t") (pos 0) 5000 (pos 7) (at (pos 1))
    ≡ some (some (pos 7), at (pos 7))
unfolding committed_offset
committed_offset_test = refl

init_test :
    init one_partition
      (codes "t")
      (pos 0)
      (λ name value. true)
      (codes "b")
      (codes "g")
      (pos 29)
      true
      (some (at (negsuc 1000)))
      (pos 7)
    ≡ some (at (pos 7))
unfolding init all_set settings
init_test = refl
