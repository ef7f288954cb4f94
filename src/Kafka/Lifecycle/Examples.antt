-- ===== src/Kafka/Lifecycle/Examples.antt =====
-- The life of a consumer (infra/kafka/AbstractConsumer.h) on concrete calls.
use smyte_db.Prelude.{◌≡◌, refl, true, false}
use smyte_db.Prelude.Int.{pos}
use smyte_db.Kafka.Lifecycle.{
  Life, not_created, at_test, in_batch, Steps, initializes, starts, thread_steps, done, then_step,
  start, thread_step, set_initialized, new_consumer,
}
use smyte_db.Kafka.Lifecycle.Safety.{IsSound, Steps-IsSound, Steps-progress}

abbrev waiting : Life
waiting = record {
  low_latency = false;
  initialized = true;
  run = true;
  consumer_thread = at_test 1000;
  batches = 0;
}

abbrev processing : Life
processing = record {
  low_latency = false;
  initialized = true;
  run = true;
  consumer_thread = in_batch 1000;
  batches = 1;
}

abbrev ready : Life
ready = record waiting { consumer_thread = not_created }

-- Initialised, started with the default timeout, and one step of the thread.
first_batch : Steps (new_consumer false) processing
unfolding new_consumer set_initialized start thread_step
first_batch =
    then_step (new_consumer false) waiting processing
      (then_step (new_consumer false) ready waiting
        (then_step (new_consumer false) (new_consumer false) ready (done (new_consumer false))
          (initializes (new_consumer false)))
        (starts (pos 0) ready waiting refl))
      (thread_steps waiting)

Steps-IsSound_example : IsSound processing
Steps-IsSound_example = Steps-IsSound false processing first_batch

-- The consumer is stopped in a batch; the thread goes on to its test, and past it.
abbrev stopped : Life
stopped = record processing { run = false }

wind_down : Steps stopped (thread_step (thread_step stopped))
wind_down =
    then_step stopped (thread_step stopped) (thread_step (thread_step stopped))
      (then_step stopped stopped (thread_step stopped) (done stopped) (thread_steps stopped))
      (thread_steps (thread_step stopped))

Steps-progress_example :
    let c' = thread_step (thread_step stopped) in (c'.run ≡ false) × (c'.batches ≡ 1)
Steps-progress_example = Steps-progress stopped (thread_step (thread_step stopped)) wind_down refl
