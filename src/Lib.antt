-- ===== src/Lib.antt =====
-- smyte-db is a library for servers that speak the Redis protocol, keep their data in RocksDB and
-- read Kafka. A connection's bytes pass the decoder (codec/RedisDecoder.cpp), which turns them
-- into messages; the adapter (pipeline/OrderedRedisMessageAdapter.cpp) numbers the requests and
-- brings the replies back into their order; a handler (pipeline/RedisHandler.cpp,
-- pipeline/TransactionalRedisHandler.cpp) looks the command up in a table and answers it; the
-- encoder (codec/RedisValue.cpp) writes the answer. Beside this, infra/ keeps ids, scheduled
-- tasks and Kafka offsets.
--
-- A string is the list of its bytes, a 64-bit signed number an integer, and a failed CHECK or
-- LOG(FATAL) is the result none.
--
-- Codec: the values and their encoding (Codec/Value, codec/RedisValue.h, codec/RedisValue.cpp,
-- codec/RedisMessage.h) and the request decoder (Codec/Decoder, codec/RedisDecoder.cpp). The
-- class's queue and cursors are the operations of Codec/Buffers, a record whose laws speak of
-- bytes; Codec/Buffers/Lists fills it with lists of buffers. The loop of skipNoise has as many
-- rounds as there are bytes, each of which moves on; the loop over the strings has the client's
-- count; a number n is printed with n + 1 rounds, since each takes off a digit.
--
-- Pipeline: the adapter (Pipeline/Adapter), the tables of command handlers and the check of
-- arguments (Pipeline/Table, pipeline/RedisHandler.h, RedisHandler.cpp) and transactions
-- (Pipeline/Transaction, pipeline/TransactionalRedisHandler.cpp). Command handlers are arguments,
-- as are RocksDB's write batches.
--
-- SmyteId: ids made from Kafka offsets (infra/SmyteId.h). boost::endian is the record of Endian,
-- which Endian/Concrete fills.
--
-- Tasks: scheduled tasks (Tasks, infra/ScheduledTask.h) and the queue that keeps them in RocksDB
-- (Tasks/Queue, infra/ScheduledTaskQueue.h, infra/ScheduledTaskQueue.cpp). RocksDB is the record
-- of RocksDb.antt, filled by RocksDb/Concrete; the processor of the tasks is an argument.
-- Tasks/Queue/Loop has the loops of the thread, on fuel.
--
-- Kafka: the offsets that consumers keep in RocksDB, and their lag (Kafka/Offsets,
-- infra/kafka/ConsumerHelper.h, infra/kafka/ConsumerHelper.cpp). librdkafka's invalid offset and
-- the conversion of folly are arguments.
--
-- Kafka, store consumer: messages from files in an object store (Kafka/Store,
-- infra/kafka/store/Consumer.h, infra/kafka/store/Consumer.cpp). The store, the clock and the
-- flag that stops the thread are an environment, round by round; a download goes on for as many
-- rounds as the flag is set, and a batch has the 10000 rounds of kMaxBatchSize.
--
-- Kafka, threads: the life of a consumer (Kafka/Lifecycle, infra/kafka/AbstractConsumer.h), with
-- its thread as a step relation beside the calls of the main thread. A wait for the thread has
-- three rounds, since a thread that was stopped has at most the rest of a batch and one test of
-- the flag before it.
--
-- Kafka, librdkafka: batches and start of a consumer (Kafka/Consumer, infra/kafka/Consumer.h,
-- infra/kafka/Consumer.cpp), and the loops of the producer (Kafka/Producer,
-- infra/kafka/Producer.h, infra/kafka/Producer.cpp), whose fuel counts attempts and polls.
--
-- Start-up: one-off flags guarded by a version (Pipeline/Bootstrap/Versions), column families and
-- groups (Pipeline/Bootstrap/Families), consumers, producers and task queues
-- (Pipeline/Bootstrap/Consumers), and the order of starts and stops
-- (Pipeline/Bootstrap/Components), all of pipeline/RedisPipelineBootstrap.h and
-- pipeline/RedisPipelineBootstrap.cpp. An unordered map is an association list, in any order. The
-- init of a consumer is known here by whether it fails a CHECK, and every batch is taken to end;
-- what init and a batch do stands in Kafka/Store and Kafka/Consumer.
--
-- Kafka/OffsetManager: offsets committed to the broker and fetched from it
-- (infra/kafka/OffsetManager.h and OffsetManager.cpp).
--
-- Serializer: archives and the serializers of numbers, strings and vectors
-- (infra/serializer/Serializer.h), over the same record Endian.
--
-- Pipeline/Database: keys, numbers and the file list of a frozen database
-- (pipeline/DatabaseManager.h, pipeline/DatabaseManager.cpp).
--
-- Pipeline/Handler: how a message becomes a call of a handler, and default commands
-- (pipeline/RedisHandler.h, pipeline/RedisHandler.cpp); Pipeline/Handler/Defaults has their
-- table, over any member functions, and Pipeline/Handler/Replies a connection to a handler that
-- answers at once, which pipeline/RedisPipelineFactory.h gives no adapter.
--
-- Pipeline/Monitors: contexts that get a line for each command (pipeline/RedisHandler.cpp). The
-- calls that a broadcast leaves for other threads are pending, and run at any later event.
--
-- Pipeline/Async: handlers that get the key of the request (pipeline/AsyncRedisHandler.h), and
-- the commands SLEEP and WAITFORCOMMIT (pipeline/RedisHandler.cpp); the fuel of the latter counts
-- its rounds.
--
-- Pipeline/Config: the configuration of a Kafka consumer from a parsed JSON object
-- (pipeline/KafkaConsumerConfig.h, pipeline/KafkaConsumerConfig.cpp).
--
-- KeyValue: the example of a server (examples/key_value/KeyValue.cpp), on top of the dispatch of
-- Pipeline/Handler.
--
-- Log output, the interleaving of threads and sockets are not modelled, nor are folly, boost,
-- RocksDB and librdkafka, which are parameters with laws where the code relies on them. The start
-- key of the adapter is a natural number; it would wrap after 2^63 replies on one connection.
pub mod Prelude
pub mod Endian
pub mod SmyteId
pub mod Kafka
pub mod KeyValue
pub mod Codec
pub mod Pipeline
pub mod RocksDb
pub mod Serializer
pub mod Tasks
