-- ===== src/Pipeline/Bootstrap/Components/Shutdown.antt =====
-- A server's consumers start and stop (pipeline/RedisPipelineBootstrap.h).
use smyte_db.Kafka.Lifecycle.{default_timeout}
use smyte_db.Prelude.{
  ◌≡◌, refl, ap, List, [], ◌∷◌, map, Bool, true, false, some, if◌then◌else◌, All, ◌&&◌, ◌∙◌, none,
}
use smyte_db.Kafka.Lifecycle.{
  Life, new_consumer, set_initialized, default_timeout, is_created, is_finished,
}
use smyte_db.Pipeline.Bootstrap.Components.{each, cons, initialize}

-- Every consumer has a thread.
abbrev pub AreCreated : List Life → Type 0
AreCreated cs = All (λ c. is_created c.consumer_thread ≡ true) cs

-- A new consumer: whether its init passes, and whether it has low latency.
abbrev pub new : Bool × Bool → Bool × Life
new (passes, low_latency) = (passes, new_consumer low_latency)

abbrev pub all_pass : List (Bool × Bool) → Bool
all_pass [] = true
all_pass ((passes, low_latency) ∷ consumers) = passes && all_pass consumers

-- The loop of init, and the consumers that it leaves.
abbrev initialized : List (Bool × Bool) → List Life
initialized [] = []
initialized ((passes, low_latency) ∷ consumers) =
    set_initialized (new_consumer low_latency) ∷ initialized consumers

initialize_all :
    (consumers : List (Bool × Bool))
    → each initialize (map new consumers)
      ≡ (if all_pass consumers then some (initialized consumers) else none)
unfolding each
initialize_all [] = refl
initialize_all ((true, l) ∷ consumers) =
    ap (cons (set_initialized (new_consumer l))) (initialize_all consumers)
    ∙ by_rest (all_pass consumers)
  where
    by_rest :
        (passes : Bool)
        → cons
            (set_initialized (new_consumer l))
            (if passes then some (initialized consumers) else none)
          ≡ (if passes
              then some (set_initialized (new_consumer l) ∷ initialized consumers)
              else none)
    by_rest true = refl
    by_rest false = refl
initialize_all ((false, l) ∷ consumers) = refl

-- A consumer was waited for: its thread has finished, and began no batch meanwhile.
abbrev pub IsStopped : Life → Life → Type 0
IsStopped c c' = (is_finished c'.consumer_thread ≡ true) × (c'.batches ≡ c.batches)

-- Stopped consumers, one by one.
abbrev pub AreStopped : List Life → List Life → Type 0
AreStopped [] [] = Unit
AreStopped [] (d ∷ ds) = ⊥
AreStopped (c ∷ cs) [] = ⊥
AreStopped (c ∷ cs) (d ∷ ds) = IsStopped c d × AreStopped cs ds
