-- ===== src/Kafka/Lifecycle.antt =====
-- infra/kafka/AbstractConsumer.h: the life of a consumer and of its thread. The thread is a step
-- relation beside the calls of the main thread: it tests the flag, and processes a batch if it is set.
pub mod Safety
mod Examples
use smyte_db.Prelude.{
  ℕ, zero, suc, ◌≡◌, List, [], ◌∷◌, Bool, true, false, ◌&&◌, not, Option, none, some, if◌then◌else◌,
}
use smyte_db.Prelude.Int.{ℤ, pos, negsuc}

abbrev pub k_default_normal_consume_timeout_ms : ℕ
k_default_normal_consume_timeout_ms = 1000

abbrev pub k_default_low_latency_consume_timeout_ms : ℕ
k_default_low_latency_consume_timeout_ms = 5

-- Where the thread is: not created, in front of the test of its loop, in a batch with its timeout,
-- or behind the loop.
pub data ConsumerThread : Type 0 where
  not_created : ConsumerThread
  at_test : ℕ → ConsumerThread
  in_batch : ℕ → ConsumerThread
  finished : ConsumerThread

-- The fields of the class, and the number of batches that were begun.
pub record Life : Type 0 where
  pub low_latency : Bool
  pub initialized : Bool
  pub run : Bool
  pub consumer_thread : ConsumerThread
  pub batches : ℕ

unfoldable pub new_consumer : Bool → Life
new_consumer low_latency = record {
  low_latency = low_latency;
  initialized = false;
  run = true;
  consumer_thread = not_created;
  batches = 0;
}

unfoldable pub set_initialized : Life → Life
set_initialized c = record c { initialized = true }

abbrev pub default_timeout : Bool → ℕ
default_timeout low_latency =
    if low_latency
    then k_default_low_latency_consume_timeout_ms
    else k_default_normal_consume_timeout_ms

-- A timeout of 0 stands for the default.
abbrev pub timeout_or_default : Bool → ℤ → Option ℕ
timeout_or_default low_latency (pos zero) = some (default_timeout low_latency)
timeout_or_default low_latency (pos (suc n)) = some (suc n)
timeout_or_default low_latency (negsuc n) = none

abbrev pub is_created : ConsumerThread → Bool
is_created not_created = false
is_created _ = true

abbrev pub run_thread : Life → Option ℕ → Option Life
run_thread c none = none
run_thread c (some timeout_ms) = some (record c { consumer_thread = at_test timeout_ms })

unfoldable pub start : ℤ → Life → Option Life
start timeout_ms c =
    if c.initialized && not (is_created c.consumer_thread)
    then run_thread c (timeout_or_default c.low_latency timeout_ms)
    else none

unfoldable pub stop : Life → Life
stop c = record c { run = false }

-- waitForStop returns once the thread has finished.
abbrev pub is_finished : ConsumerThread → Bool
is_finished finished = true
is_finished _ = false

-- A step of the thread: the test of the loop, or the end of a batch.
abbrev pub move_on : Life → ConsumerThread → Life
move_on c not_created = c
move_on c (at_test timeout_ms) =
    if c.run
    then record c { consumer_thread = in_batch timeout_ms; batches = suc c.batches }
    else record c { consumer_thread = finished }
move_on c (in_batch timeout_ms) = record c { consumer_thread = at_test timeout_ms }
move_on c finished = c

unfoldable pub thread_step : Life → Life
thread_step c = move_on c c.consumer_thread

-- The wait for the thread, which goes on meanwhile; `none` if that takes more steps than given.
unfoldable pub join : ℕ → Life → Option Life
unfolding thread_step
join zero c = none
join (suc fuel) c =
    let rest = join fuel (thread_step c) in if is_finished c.consumer_thread then some c else rest

-- `none` also is the failed CHECK, that there is a thread.
unfoldable pub wait_for_stop : ℕ → Life → Option Life
unfolding join
wait_for_stop fuel c = if is_created c.consumer_thread then join fuel c else none

-- destroy, up to the release of the client's resources.
unfoldable pub destroy : ℕ → Life → Option Life
unfolding stop wait_for_stop
destroy fuel c = wait_for_stop fuel (stop c)

-- What may happen to a consumer: calls of the main thread that fail no CHECK, and steps of its thread.
pub data Step : Life → Life → Type 0 where
  initializes : (c : Life) → Step c (set_initialized c)
  starts : (timeout_ms : ℤ) (c c' : Life) → start timeout_ms c ≡ some c' → Step c c'
  stops : (c : Life) → Step c (stop c)
  thread_steps : (c : Life) → Step c (thread_step c)

pub data Steps : Life → Life → Type 0 where
  done : (c : Life) → Steps c c
  then_step : (c d e : Life) → Steps c d → Step d e → Steps c e
