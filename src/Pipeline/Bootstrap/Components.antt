-- ===== src/Pipeline/Bootstrap/Components.antt =====
-- startOptionalComponents, stopOptionalComponents and launchServer of pipeline/RedisPipelineBootstrap.h and
-- RedisPipelineBootstrap.cpp. A task queue or a producer is known by its name; consumers are the lives of Kafka/Lifecycle.
pub mod Shutdown
use smyte_db.Prelude.{
  ℕ, zero, suc, List, [], ◌∷◌, ◌++◌, map, Bool, true, false, ◌&&◌, Option, none, some,
  if◌then◌else◌, ◌==◌, codes,
}
use smyte_db.Prelude.Int.{ℤ, pos}
use smyte_db.Kafka.Lifecycle.{Life, set_initialized, start, stop, destroy, thread_step}

-- The optional components that there are.
pub record Components : Type 0 where
  pub has_database_manager : Bool
  pub task_queues : List (List ℕ)
  pub kafka_consumers : List Life
  pub kafka_producers : List (List ℕ)
  pub has_http_server : Bool

-- Calls of components in their order; a consumer is known by its number.
pub data Event : Type 0 where
  start_database_manager : Event
  start_task_queue : List ℕ → Event
  init_consumer : ℕ → Event
  start_consumer : ℕ → Event
  start_http_server : Event
  destroy_http_server : Event
  stop_consumer : ℕ → Event
  destroy_consumer : ℕ → Event
  destroy_task_queue : List ℕ → Event
  destroy_producer : List ℕ → Event
  destroy_database_manager : Event

abbrev pub when : Bool → Event → List Event
when b e = if b then e ∷ [] else []

-- A call for each consumer.
abbrev pub for_each : {A : Type 0} → (ℕ → Event) → ℕ → List A → List Event
for_each event i [] = []
for_each event i (x ∷ xs) = event i ∷ for_each event (suc i) xs

unfoldable pub start_events : Components → List Event
start_events c =
    when c.has_database_manager start_database_manager
    ++ (map start_task_queue c.task_queues
        ++ (for_each init_consumer 0 c.kafka_consumers
            ++ (for_each start_consumer 0 c.kafka_consumers
                ++ when c.has_http_server start_http_server)))

unfoldable pub stop_events : Components → List Event
stop_events c =
    when c.has_http_server destroy_http_server
    ++ (for_each stop_consumer 0 c.kafka_consumers
        ++ (for_each destroy_consumer 0 c.kafka_consumers
            ++ (map destroy_task_queue c.task_queues
                ++ (map destroy_producer c.kafka_producers
                    ++ when c.has_database_manager destroy_database_manager))))

abbrev pub cons : {B : Type 0} → B → Option (List B) → Option (List B)
cons c none = none
cons c (some cs) = some (c ∷ cs)

-- A call that may fail, for each consumer in turn.
unfoldable pub each : {A B : Type 0} → (A → Option B) → List A → Option (List B)
each call [] = some []
each call (c ∷ cs) =
    let rest = each call cs in elim (call c) [ none ↦ none | some c' ↦ cons c' rest ]

-- A consumer's virtual init, and whether it fails no CHECK; it ends by setInitialized.
abbrev pub initialize : Bool × Life → Option Life
initialize (passes, c) = if passes then some (set_initialized c) else none

abbrev pub start_initialized : Option (List Life) → Option (List Life)
start_initialized none = none
start_initialized (some cs) = each (start (pos 0)) cs

-- The two loops over the consumers: all are initialized before the first starts, with the default timeout.
unfoldable pub start_consumers : List (Bool × Life) → Option (List Life)
unfolding each
start_consumers cs = start_initialized (each initialize cs)

-- The two loops over the consumers; the fuel is for each wait.
unfoldable pub stop_consumers : ℕ → List Life → Option (List Life)
unfolding each
stop_consumers fuel cs = each (destroy fuel) (map stop cs)

-- The threads go on: so many steps of each.
abbrev pub steps : ℕ → Life → Life
steps zero c = c
steps (suc n) c = steps n (thread_step c)

abbrev pub run_threads : List ℕ → List Life → List Life
run_threads [] cs = cs
run_threads (n ∷ ns) [] = []
run_threads (n ∷ ns) (c ∷ cs) = steps n c ∷ run_threads ns cs

-- launchServer's checks in front of the server: there is a database manager, and a queue for each task processor.
unfoldable pub can_launch : Bool → ℕ → ℕ → Bool
can_launch has_database_manager processors queues = has_database_manager && processors == queues
