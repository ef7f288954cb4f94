-- ===== src/Kafka/Producer/Examples.antt =====
-- The producer of infra/kafka/Producer.h on concrete answers.
use smyte_db.Prelude.{ℕ, zero, suc, ◌-◌, ◌≤◌, ◌<◌, ◌≡◌, refl, true, false, some, arith}
use smyte_db.Prelude.Int.{negsuc}
use smyte_db.Kafka.Consumer.{ErrorCode, err_no_error, err_queue_full}
use smyte_db.Kafka.Producer.{
  produced, is_queue_full, produce_async_fatal_on_error, wait_for_ack, is_partition_assigned,
}
use smyte_db.Kafka.Producer.Termination.{
  polls, produce_async_fatal_on_error-verdict, wait_for_ack_terminates,
}

-- The queue is full twice.
abbrev answers : ℕ → ErrorCode
answers zero = err_queue_full
answers (suc zero) = err_queue_full
answers (suc (suc n)) = err_no_error

full_twice : (i : ℕ) → i < 2 → is_queue_full (answers i) ≡ true
full_twice zero h = refl
full_twice (suc zero) h = refl
full_twice (suc (suc i)) h = absurd (omega (arith, h))

produce_async_fatal_on_error-verdict_example : produce_async_fatal_on_error 5 answers ≡ produced 2
produce_async_fatal_on_error-verdict_example =
    produce_async_fatal_on_error-verdict answers 2 5 (omega arith) full_twice refl

-- A client is the length of its queue, which a poll that may wait shortens.
abbrev poll : ℕ → ℕ → ℕ
poll zero n = n
poll (suc timeout) n = n - 1

wait_for_ack_terminates_example :
    (client' : ℕ) × (k : ℕ) × (k ≤ 3)
    × (wait_for_ack poll (λ n. n) 4 2 ≡ some client')
    × (client' ≡ polls poll (λ n. n) k 2)
    × (client' ≡ 0)
wait_for_ack_terminates_example = wait_for_ack_terminates poll (λ n. n) 3 2 refl

-- -1 stands for a partition that is not assigned.
unassigned_test : is_partition_assigned (negsuc 0) (negsuc 0) ≡ false
unfolding is_partition_assigned
unassigned_test = refl
