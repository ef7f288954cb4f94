-- ===== src/Kafka/Offsets/Stored.antt =====
-- Offsets that infra/kafka/ConsumerHelper.cpp commits and loads again.
use smyte_db.Pipeline.Table.{Table}
use smyte_db.RocksDb.{RocksDb}
