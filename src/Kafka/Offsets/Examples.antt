-- ===== src/Kafka/Offsets/Examples.antt =====
-- A helper with two linked consumers, and offsets in a database.
use smyte_db.Prelude.{
  ℕ, ◌≡◌, refl, List, [], ◌∷◌, true, false, some, length, arith, codes, bytes_eq, if◌then◌else◌,
}
use smyte_db.Prelude.Int.{pos, negsuc}
use smyte_db.Codec.Conversion.{read_int64, read_int64-padded}
use smyte_db.Pipeline.Table.{find}
use smyte_db.Kafka.Offsets.{
  Helper, any_lagging, set_no_lag, encode_kafka_and_file_offsets, decode_kafka_and_file_offsets,
}
use smyte_db.Kafka.Offsets.Encoding.{decode-encode_offsets}
use smyte_db.Kafka.Offsets.Lag.{IsConsistent, set_no_lag_lem}

abbrev two_consumers : Helper
two_consumers = record {
  topic_partitions = (codes "a", (codes "t", pos 0)) ∷ (codes "b", (codes "t", pos 1)) ∷ [];
  last_committed_offsets = (codes "a", pos 5) ∷ (codes "b", pos 6) ∷ [];
  high_watermark_offsets = [];
  lag_statuses = (codes "a", true) ∷ (codes "b", false) ∷ [];
  is_lagging = true;
}

consistent : IsConsistent two_consumers
unfolding any_lagging
consistent = refl

linked : find (codes "a") two_consumers.lag_statuses ≡ some true
unfolding find bytes_eq
linked = refl

set_no_lag_lem_example :
    (h' : Helper) × (set_no_lag (codes "a") two_consumers ≡ some h')
    × IsConsistent h'
    × ((name : List ℕ)
        → find name h'.lag_statuses ≡ (
            if bytes_eq (codes "a") name then some false else find name two_consumers.lag_statuses))
set_no_lag_lem_example = set_no_lag_lem two_consumers (codes "a") true consistent linked

decode-encode_offsets_example :
    (value : List ℕ) × (encode_kafka_and_file_offsets (pos 1234) (pos 77) ≡ some value)
    × (length value ≡ 41)
    × (decode_kafka_and_file_offsets read_int64 (negsuc 1000) value ≡ some (pos 1234, pos 77))
decode-encode_offsets_example =
    decode-encode_offsets read_int64 (negsuc 1000) 1234 77 read_int64-padded (omega arith)
      (omega arith)
