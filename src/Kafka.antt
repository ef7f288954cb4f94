-- ===== src/Kafka.antt =====
-- infra/kafka: offsets in RocksDB, the thread of a consumer, consumers and the producer.
pub mod Offsets
pub mod Lifecycle
pub mod Consumer
pub mod Store
pub mod Producer
pub mod OffsetManager
