-- ===== src/Tasks/Queue/Examples.antt =====
-- A queue of three tasks, two of them due, and a processor that completes the first task it gets.
use smyte_db.Prelude.{ℕ, ◌<◌, ◌≡◌, refl, List, [], ◌∷◌, ◌++◌, false, some, arith, All, map}
use smyte_db.Prelude.Int.{ℤ, pos}
use smyte_db.Endian.{big_endian}
use smyte_db.Endian.Order.{lex_lt}
use smyte_db.RocksDb.{Ascending, find_entry}
use smyte_db.RocksDb.Concrete.{sorted_db, Update}
use smyte_db.Tasks.{ScheduledTask, mark_completed}
use smyte_db.Tasks.Keys.{IsNew}
use smyte_db.Tasks.Queue.{State, scan_pending_tasks, batch_processing, schedule_opaque}
use smyte_db.Tasks.Queue.Scan.{entry_of, scan_pending_tasks-due}
use smyte_db.Tasks.Queue.Batch.{Processed, batch_processing_lem, schedule_opaque_lem, last_value}

abbrev task : ℕ → ℕ → ScheduledTask
task millis name = record {
  scheduled_time_ms = pos millis;
  data_key = name ∷ [];
  value = name ∷ name ∷ [];
  completed = false;
  key = big_endian.store 8 (pos millis) ++ name ∷ [];
}

abbrev tasks : List ScheduledTask
tasks = task 5 b'b' ∷ task 9 b'a' ∷ task 200 b'c' ∷ []

task-IsNew : (millis name : ℕ) → millis < 9223372036854775808 → IsNew big_endian (task millis name)
task-IsNew millis name h = record {
  millis = millis;
  in_range = h;
  time = refl;
  key = refl;
  has_data_key = λ empty. absurd (cc);
  completed = refl;
}

tasks-IsNew : All (IsNew big_endian) tasks
tasks-IsNew = (
  task-IsNew 5 b'b' (omega arith),
  (task-IsNew 9 b'a' (omega arith), (task-IsNew 200 b'c' (omega arith), tt)),
)

tasks_ascend : Ascending (map entry_of tasks)
unfolding lex_lt
tasks_ascend = ((refl, (refl, tt)), ((refl, tt), (tt, tt)))

scan_pending_tasks-due_example :
    scan_pending_tasks big_endian sorted_db tt (map entry_of tasks) (pos 100) 0
    ≡ some (2, task 5 b'b' ∷ task 9 b'a' ∷ [])
scan_pending_tasks-due_example =
    scan_pending_tasks-due big_endian sorted_db tt (map entry_of tasks) tasks 100 0 refl tasks-IsNew
      tasks_ascend (omega arith)

abbrev complete_first : List ScheduledTask → List Update → List ScheduledTask × List Update
complete_first [] b = ([], b)
complete_first (t ∷ ts) b = (mark_completed t ∷ ts, b)

abbrev pub queue : State big_endian sorted_db tt
queue = record { db = map entry_of tasks; outstanding_task_count = 3 }

batch_processing_lem_example :
    (s' : State big_endian sorted_db tt) × (batch_processing big_endian sorted_db tt complete_first
        10 queue
        (pos 100)
      ≡ some (2, s'))
    × Processed big_endian sorted_db tt queue
        (mark_completed (task 5 b'b') ∷ task 9 b'a' ∷ [])
        []
        s'
batch_processing_lem_example =
    batch_processing_lem big_endian sorted_db tt complete_first queue tasks 100 10 refl tasks-IsNew
      tasks_ascend (omega arith) (omega arith) (λ b. refl) (omega arith) (omega arith)

abbrev opaque_result : ℤ × State big_endian sorted_db tt
opaque_result =
    schedule_opaque big_endian sorted_db tt (pos 2, task 7 b'd' ∷ task 9 b'a' ∷ []) queue

schedule_opaque_lem_example :
    let r = schedule_opaque big_endian sorted_db tt (pos 2, task 7 b'd' ∷ task 9 b'a' ∷ []) queue in
    (r.0 ≡ pos 2)
    × ((k : List ℕ)
        → find_entry k r.1.db
          ≡ last_value k (task 7 b'd' ∷ task 9 b'a' ∷ []) (find_entry k queue.db))
schedule_opaque_lem_example =
    schedule_opaque_lem big_endian sorted_db tt 2 (task 7 b'd' ∷ task 9 b'a' ∷ []) queue
      (omega arith) (λ b. refl)
