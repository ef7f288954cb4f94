-- ===== src/Kafka/Producer/Termination.antt =====
-- The loops of infra/kafka/Producer.h end.
use smyte_db.Prelude.{
  subst, sym, ◌-◌, ℕ, zero, suc, ◌+◌, ◌≤◌, ◌<◌, ◌≡◌, refl, true, false, some, arith, Bool-cases,
  inl, inr, if◌then◌else◌, ltb,
}
use smyte_db.Kafka.Consumer.{
  ErrorCode, err_no_error, err_timed_out, err_partition_eof, err_queue_full, err_other, is_ok,
}
use smyte_db.Kafka.Producer.{
  Outcome, produced, fatal, is_queue_full, produce_loop, produce_async_fatal_on_error, ack_loop,
  wait_for_ack,
}

-- What the first answer that is not a full queue leads to.
abbrev pub verdict : ℕ → ErrorCode → Outcome
verdict attempts err = if is_ok err then produced attempts else fatal err

full_not_ok : (err : ErrorCode) → is_queue_full err ≡ true → is_ok err ≡ false
full_not_ok err_no_error h = absurd (cc)
full_not_ok err_timed_out h = refl
full_not_ok err_partition_eof h = refl
full_not_ok err_queue_full h = refl
full_not_ok err_other h = refl

produce_loop-verdict :
    (answers : ℕ → ErrorCode) (n spare attempt : ℕ)
    → ((i : ℕ) → i < n → is_queue_full (answers (attempt + i)) ≡ true)
    → is_queue_full (answers (attempt + n)) ≡ false
    → produce_loop (suc (n + spare)) answers attempt ≡ verdict (attempt + n) (answers (attempt + n))
unfolding produce_loop
produce_loop-verdict answers zero spare attempt full settled =
    let e : attempt + 0 ≡ attempt = omega arith in rw e (rw (rw e at settled) refl)
produce_loop-verdict answers (suc n) spare attempt full settled =
    let e : attempt + suc n ≡ suc attempt + n = omega arith in
    let e' : suc n + spare ≡ suc (n + spare) = omega arith in
    let now : is_queue_full (answers attempt) ≡ true =
      rw (the_first attempt) at (full 0 (omega arith)) in
    rw (e, e', now, full_not_ok (answers attempt) now)
      (produce_loop-verdict answers n spare (suc attempt)
        (λ i h. rw (shift attempt i) at (full (suc i) (omega arith))) (rw e at settled))
  where
    the_first : (a : ℕ) → a + 0 ≡ a
    the_first a = omega arith

    shift : (a i : ℕ) → a + suc i ≡ suc a + i
    shift a i = omega arith

-- produceAsyncFatalOnError ends once the queue is no longer full: if the first n attempts find it full and the next
-- does not, more rounds than n are enough, and the message is produced behind n sleeps, or, if
-- that attempt fails in another way, the error is fatal.
pub produce_async_fatal_on_error-verdict :
    (answers : ℕ → ErrorCode) (n fuel : ℕ)
    → n < fuel
    → ((i : ℕ) → i < n → is_queue_full (answers i) ≡ true)
    → is_queue_full (answers n) ≡ false
    → produce_async_fatal_on_error fuel answers ≡ verdict n (answers n)
unfolding produce_async_fatal_on_error
produce_async_fatal_on_error-verdict answers n fuel enough full settled =
    let e : fuel ≡ suc (n + (fuel - n - 1)) = omega (arith, enough) in
    subst (λ f. produce_loop f answers 0 ≡ verdict n (answers n)) (sym e)
      (subst (λ k. produce_loop (suc (n + (fuel - n - 1))) answers 0 ≡ verdict k (answers k))
        (sym (from_zero n))
        (produce_loop-verdict answers n (fuel - n - 1) 0
          (λ i h. subst (λ k. is_queue_full (answers k) ≡ true) (from_zero i) (full i h))
          (subst (λ k. is_queue_full (answers k) ≡ false) (from_zero n) settled)))
  where
    from_zero : (i : ℕ) → i ≡ 0 + i
    from_zero i = omega arith

module _ {Client : Type 0} (poll : ℕ → Client → Client) (outq_len : Client → ℕ) where
  -- So many polls, each of which may wait for a second.
  abbrev pub polls : ℕ → Client → Client
  polls zero client = client
  polls (suc n) client = polls n (poll 1000 client)

  ack_loop_terminates :
      (n : ℕ) (client : Client)
      → outq_len (polls n client) ≡ 0
      → (client' : Client) × (k : ℕ) × (k ≤ n)
        × (ack_loop poll outq_len (suc n) client ≡ some client')
        × (client' ≡ polls k client)
        × (outq_len client' ≡ 0)
  unfolding ack_loop
  ack_loop_terminates zero client drained =
      let empty : ltb 0 (outq_len client) ≡ false = ground arith in
      (client, 0, omega arith, rw empty refl, refl, drained)
  ack_loop_terminates (suc n) client drained = elim (Bool-cases (ltb 0 (outq_len client))) [
    | inr empty ↦ (client, 0, omega arith, rw empty refl, refl, ground arith)
    | inl waits ↦
        let (client', k, bound, e, same, empty) =
          ack_loop_terminates n (poll 1000 client) drained in
        (client', suc k, omega (arith, bound), rw waits e, same, empty)
  ]

  -- waitForAck ends once the queue is empty: if n polls behind the first empty it, n + 1 rounds are enough, and the
  -- queue is empty behind the loop, which has polled n times at most.
  pub wait_for_ack_terminates :
      (n : ℕ) (client : Client)
      → outq_len (polls n (poll 0 client)) ≡ 0
      → (client' : Client) × (k : ℕ) × (k ≤ n)
        × (wait_for_ack poll outq_len (suc n) client ≡ some client')
        × (client' ≡ polls k (poll 0 client))
        × (outq_len client' ≡ 0)
  unfolding wait_for_ack
  wait_for_ack_terminates n client drained = ack_loop_terminates n (poll 0 client) drained
