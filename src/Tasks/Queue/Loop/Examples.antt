-- ===== src/Tasks/Queue/Loop/Examples.antt =====
-- A processor that completes nothing, and one that completes everything, on the queue of infra/ScheduledTaskQueue.h.
use smyte_db.Prelude.{ℕ, zero, suc, ◌≡◌, refl, List, Bool, true, false, map, bytes_eq}
use smyte_db.Prelude.Int.{pos}
use smyte_db.Endian.{big_endian}
use smyte_db.RocksDb.Concrete.{sorted_db, Update, apply_all}
use smyte_db.RocksDb.{before}
use smyte_db.Endian.Order.{lex_lt}
use smyte_db.Tasks.{ScheduledTask, mark_completed, encode_timestamp}
use smyte_db.Tasks.Queue.{batch_processing, scan_pending_tasks, scan, finish_batch}
use smyte_db.Tasks.Queue.Examples.{queue}
use smyte_db.Tasks.Queue.Loop.{running, exhaust, execute}
use smyte_db.Tasks.Queue.Loop.Ends.{Ends, exhaust_stuck}

abbrev complete_none : List ScheduledTask → List Update → List ScheduledTask × List Update
complete_none tasks batch = (tasks, batch)

abbrev complete_all : List ScheduledTask → List Update → List ScheduledTask × List Update
complete_all tasks batch = (map mark_completed tasks, batch)

-- With batches of two, the two due tasks are retried for ever, and without a pause.
exhaust_test :
    (n : ℕ) → exhaust big_endian sorted_db tt complete_none 2 (pos 10) n queue ≡ running queue
unfolding batch_processing scan_pending_tasks encode_timestamp scan before lex_lt finish_batch
    apply_all
exhaust_test n = exhaust_stuck big_endian sorted_db tt complete_none 2 (pos 10) n queue refl

-- run_ is reset in the second round.
abbrev run : ℕ → Bool
run zero = true
run (suc n) = false

execute_test : Ends (execute big_endian sorted_db tt complete_all 2 run (λ n. pos 9) 2 2 0 queue)
unfolding execute exhaust batch_processing scan_pending_tasks encode_timestamp scan before lex_lt
    finish_batch apply_all bytes_eq
execute_test = tt
