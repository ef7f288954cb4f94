-- ===== src/Kafka/Lifecycle/Safety.antt =====
-- When the thread in infra/kafka/AbstractConsumer.h processes batches, and that it ends.
use smyte_db.Prelude.{
  ℕ, subst, ◌≡◌, refl, ap, sym, ◌∙◌, Bool, true, false, ◌&&◌, ◌||◌, not, Option, none, some, arith,
  ◌==◌, Bool-cases, if-some, inl, inr,
}
use smyte_db.Prelude.Int.{ℤ}
use smyte_db.Kafka.Lifecycle.{
  Life, ConsumerThread, not_created, at_test, in_batch, finished, Step, Steps, initializes, starts,
  stops, thread_steps, done, then_step, start, stop, thread_step, set_initialized, new_consumer,
  is_created, is_finished, run_thread, Steps, move_on, timeout_or_default,
}

-- A thread stands only for an initialised consumer, and without one no batch was begun.
abbrev pub IsSound : Life → Type 0
IsSound c =
    ((not (is_created c.consumer_thread) || c.initialized) ≡ true)
    × ((is_created c.consumer_thread || c.batches == 0) ≡ true)

run_thread-IsSound :
    (c c' : Life) (o : Option ℕ) → c.initialized ≡ true → run_thread c o ≡ some c' → IsSound c'
run_thread-IsSound c c' none i h = absurd (cc)
run_thread-IsSound c c' (some timeout_ms) i h =
    let e : record c { consumer_thread = at_test timeout_ms } ≡ c' = cc in subst IsSound e (i, refl)

created-initialized :
    (c : Life) (t : ConsumerThread)
    → c.consumer_thread ≡ t
    → is_created t ≡ true
    → IsSound c
    → c.initialized ≡ true
created-initialized c t e created h =
    let i : (not (is_created t) || c.initialized) ≡ true = rw e at h.0 in rw created at i

move_on-IsSound :
    (c : Life) (t : ConsumerThread) → c.consumer_thread ≡ t → IsSound c → IsSound (move_on c t)
move_on-IsSound c not_created e h = h
move_on-IsSound c (at_test timeout_ms) e h =
    let i : c.initialized ≡ true = created-initialized c (at_test timeout_ms) e refl h in
    elim (Bool-cases c.run) [ inl runs ↦ rw runs (i, refl) | inr stopped ↦ rw stopped (i, refl) ]
move_on-IsSound c (in_batch timeout_ms) e h =
    (created-initialized c (in_batch timeout_ms) e refl h, refl)
move_on-IsSound c finished e h = h

-- What start needs, and what it does.
start-some :
    (timeout_ms : ℤ) (c c' : Life)
    → start timeout_ms c ≡ some c'
    → ((c.initialized && not (is_created c.consumer_thread)) ≡ true)
      × (run_thread c (timeout_or_default c.low_latency timeout_ms) ≡ some c')
unfolding start
start-some timeout_ms c c' h =
    if-some (c.initialized && not (is_created c.consumer_thread))
      (run_thread c (timeout_or_default c.low_latency timeout_ms)) c' h

start-IsSound : (timeout_ms : ℤ) (c c' : Life) → start timeout_ms c ≡ some c' → IsSound c'
start-IsSound timeout_ms c c' h =
    let (ready, run) = start-some timeout_ms c c' h in
    run_thread-IsSound c c' (timeout_or_default c.low_latency timeout_ms) (ground arith) run

Step-IsSound : (c c' : Life) → Step c c' → IsSound c → IsSound c'
unfolding set_initialized stop thread_step
Step-IsSound _ _ (initializes c) h = (ground arith, h.1)
Step-IsSound _ _ (starts timeout_ms c c' e) h = start-IsSound timeout_ms c c' e
Step-IsSound _ _ (stops c) h = h
Step-IsSound _ _ (thread_steps c) h = move_on-IsSound c c.consumer_thread refl h

-- No batch is processed by a consumer that was not initialised: in whatever order a new consumer is initialised, started
-- and stopped, and however its thread moves on in between, the consumer is initialised once its
-- thread exists, and no batch was begun before that.
pub Steps-IsSound : (low_latency : Bool) (c : Life) → Steps (new_consumer low_latency) c → IsSound c
unfolding new_consumer
Steps-IsSound low_latency _ (done _) = (refl, refl)
Steps-IsSound low_latency _ (then_step _ d c before s) =
    Step-IsSound d c s (Steps-IsSound low_latency d before)

-- The flag and the number of batches.
abbrev pub progress : Life → Bool × ℕ
progress c = (c.run, c.batches)

run_thread-progress :
    (c c' : Life) (o : Option ℕ) → run_thread c o ≡ some c' → progress c' ≡ progress c
run_thread-progress c c' none h = absurd (cc)
run_thread-progress c c' (some timeout_ms) h =
    let e : record c { consumer_thread = at_test timeout_ms } ≡ c' = cc in sym (ap progress e)

move_on-progress :
    (c : Life) (t : ConsumerThread) → c.run ≡ false → progress (move_on c t) ≡ progress c
move_on-progress c not_created h = refl
move_on-progress c (at_test timeout_ms) h = rw h refl
move_on-progress c (in_batch timeout_ms) h = refl
move_on-progress c finished h = refl

Step-progress : (c c' : Life) → Step c c' → c.run ≡ false → progress c' ≡ progress c
unfolding set_initialized stop thread_step
Step-progress _ _ (initializes c) h = refl
Step-progress _ _ (starts timeout_ms c c' e) h =
    let (ready, run) = start-some timeout_ms c c' e in
    run_thread-progress c c' (timeout_or_default c.low_latency timeout_ms) run
Step-progress _ _ (stops c) h = ap (λ b. (b, c.batches)) (sym h)
Step-progress _ _ (thread_steps c) h = move_on-progress c c.consumer_thread h

-- Once the flag is cleared, it stays so, and no batch is begun any more, whatever is called and however the
-- thread moves on.
pub Steps-progress :
    (c c' : Life) → Steps c c' → c.run ≡ false → (c'.run ≡ false) × (c'.batches ≡ c.batches)
Steps-progress _ _ (done c) h = (h, refl)
Steps-progress _ _ (then_step c d c' before s) h =
    let (stopped, same) = Steps-progress c d before h in
    let e : progress c' ≡ progress d = Step-progress d c' s stopped in
    (ap (λ p. p.0) e ∙ stopped, ap (λ p. p.1) e ∙ same)

-- waitForStop returns: behind stop, a thread that was created finishes within two of its steps, the rest of a
-- batch and the test of its loop, and begins no batch in them.
pub stop_terminates :
    (c : Life)
    → is_created c.consumer_thread ≡ true
    → let c' = thread_step (thread_step (stop c)) in
      (is_finished c'.consumer_thread ≡ true) × (c'.batches ≡ c.batches)
unfolding stop thread_step
stop_terminates c h = from_thread c c.consumer_thread refl h
  where
    from_thread :
        (c : Life) (t : ConsumerThread)
        → c.consumer_thread ≡ t
        → is_created t ≡ true
        → let d = move_on (record c { run = false }) t in
          let c' = move_on d d.consumer_thread in
          (is_finished c'.consumer_thread ≡ true) × (c'.batches ≡ c.batches)
    from_thread c not_created e h = absurd (cc)
    from_thread c (at_test timeout_ms) e h = (refl, refl)
    from_thread c (in_batch timeout_ms) e h = (refl, refl)
    from_thread c finished e h = rw e (refl, refl)
