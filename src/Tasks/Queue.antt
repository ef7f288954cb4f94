-- ===== src/Tasks/Queue.antt =====
-- infra/ScheduledTaskQueue.h and ScheduledTaskQueue.cpp without the thread. RocksDB and the task
-- processor are arguments; `none` is a failed CHECK or an assertion of rocksdb::Slice.

pub mod Scan
pub mod Batch
pub mod Loop
mod Examples
use smyte_db.Prelude.{
  ℕ, suc, ◌+◌, ◌-◌, ◌%◌, ◌^◌, List, [], ◌∷◌, Bool, true, false, ◌||◌, Option, none, some, length,
  ltb, leb, ◌==◌, if◌then◌else◌, drop, Bool,
}
use smyte_db.Prelude.Int.{ℤ, pos, negsuc, leb_ℤ}
use smyte_db.Endian.{Endian}
use smyte_db.RocksDb.{RocksDb, Entry}
use smyte_db.Tasks.{ScheduledTask, encode_timestamp, decode_timestamp, new_task}

abbrev pub k_scan_batch_size : ℕ
k_scan_batch_size = 10000

-- The processor's batch size, capped, as the constructor sets it.
abbrev pub scan_batch_size : ℕ → ℕ
scan_batch_size max_batch_size =
    if ltb k_scan_batch_size max_batch_size then k_scan_batch_size else max_batch_size

module _ (e : Endian) where
  -- The task of a key and a value; both slices need a key of at least 8 bytes.
  unfoldable pub task_of : Entry → Option ScheduledTask
  unfolding decode_timestamp new_task
  task_of (key, value) =
      if ltb (length key) 8 then none else new_task e (decode_timestamp e key) (drop 8 key) value

  -- The loop of scanPendingTasks with a task vector: the count and the tasks.
  unfoldable pub scan : ℕ → ℕ → List Entry → Option (ℕ × List ScheduledTask)
  unfolding task_of
  scan limit count [] = some (count, [])
  scan limit count (entry ∷ entries) =
      let rest = scan limit (suc count) entries in
      if limit == 0 || ltb count limit
      then elim (task_of entry) [
        | none ↦ none
        | some t ↦ elim rest [ none ↦ none | some (n, ts) ↦ some (n, t ∷ ts) ]
      ]
      else some (count, [])

  -- The loop without a task vector.
  unfoldable pub count_entries : ℕ → ℕ → List Entry → Option ℕ
  count_entries limit count [] = some count
  count_entries limit count ((key, value) ∷ entries) =
      let rest = count_entries limit (suc count) entries in
      if limit == 0 || ltb count limit
      then (if ltb (length key) 8 then none else rest)
      else some count

module _ (e : Endian) (rocks : RocksDb) (column_family : rocks.Family) where
  open rocks use {Db, Batch, empty_batch, put, delete, write, iterate}

  unfoldable pub scan_pending_tasks : Db → ℤ → ℕ → Option (ℕ × List ScheduledTask)
  scan_pending_tasks db max_timestamp_ms limit = elim (encode_timestamp e max_timestamp_ms) [
    | none ↦ none
    | some bound ↦ scan e limit 0 (iterate column_family bound db)
  ]

  unfoldable pub count_pending_tasks : Db → ℤ → ℕ → Option ℕ
  count_pending_tasks db max_timestamp_ms limit = elim (encode_timestamp e max_timestamp_ms) [
    | none ↦ none
    | some bound ↦ count_entries e limit 0 (iterate column_family bound db)
  ]

  abbrev pub accurate_outstanding_task_count_slow : Db → Option ℕ
  accurate_outstanding_task_count_slow db = count_pending_tasks db (pos 9223372036854775807) 0

  -- The database with the member outstandingTaskCount_, a size_t.
  pub record State : Type 0 where
    pub db : Db
    pub outstanding_task_count : ℕ

  -- start, up to the thread.
  unfoldable pub start : State → Option State
  start s =
      if s.outstanding_task_count == 0
      then elim (accurate_outstanding_task_count_slow s.db) [
        | none ↦ none
        | some n ↦ some (record s { outstanding_task_count = n })
      ]
      else none

  -- The loop over the processed tasks: how many are completed, and the batch that deletes them.
  unfoldable pub delete_completed : List ScheduledTask → Batch → ℕ × Batch
  delete_completed [] batch = (0, batch)
  delete_completed (t ∷ ts) batch =
      let (n, batch') = delete_completed ts (delete column_family t.key batch) in
      let (m, batch'') = delete_completed ts batch in
      if t.completed then (suc n, batch') else (m, batch'')

  -- batchProcessing behind a scan that found tasks.
  unfoldable pub finish_batch : State → ℕ → List ScheduledTask × Batch → Option (ℕ × State)
  unfolding delete_completed
  finish_batch s count (tasks, batch) =
      let (num_completed, batch') = delete_completed tasks batch in
      let (status, db') = write batch' s.db in
      elim status [
        | none ↦ some (
          count,
          record {
            db = db';
            outstanding_task_count = (s.outstanding_task_count + 2 ^ 64 - num_completed) % 2 ^ 64;
          },
        )
        | some text ↦ none
      ]

  unfoldable pub batch_processing :
      (List ScheduledTask → Batch → List ScheduledTask × Batch) → ℕ → State → ℤ → Option (ℕ × State)
  batch_processing process batch_size s max_timestamp_ms =
      elim (scan_pending_tasks s.db max_timestamp_ms batch_size) [
        | none ↦ none
        | some (count, tasks) ↦
            if ltb 0 count
            then finish_batch s count (process tasks empty_batch)
            else some (count, s)
      ]

  -- scheduleWithWriteBatch with one task and with several; the count is a size_t.
  unfoldable pub schedule_with_write_batch : ScheduledTask → Batch × ℕ → Batch × ℕ
  schedule_with_write_batch task (batch, outstanding) =
      (put column_family task.key task.value batch, (outstanding + 1) % 2 ^ 64)

  unfoldable pub schedule_all : List ScheduledTask → Batch × ℕ → Batch × ℕ
  unfolding schedule_with_write_batch
  schedule_all [] s = s
  schedule_all (t ∷ ts) s = schedule_all ts (schedule_with_write_batch t s)

  unfoldable pub schedule : ScheduledTask → State → Bool × State
  unfolding schedule_with_write_batch
  schedule task s =
      let (batch, outstanding) =
        schedule_with_write_batch task (empty_batch, s.outstanding_task_count) in
      let (status, db') = write batch s.db in
      (
        elim status [ none ↦ true | some text ↦ false ],
        record { db = db'; outstanding_task_count = outstanding },
      )

  -- scheduleOpaque and scheduleOpaqueWithWriteBatch, with the result of generateTasks.
  unfoldable pub schedule_opaque : ℤ × List ScheduledTask → State → ℤ × State
  unfolding schedule_all
  schedule_opaque (ret, tasks) s =
      if leb_ℤ ret (pos 0)
      then (ret, s)
      else (let (batch, outstanding) = schedule_all tasks (empty_batch, s.outstanding_task_count) in
          let (status, db') = write batch s.db in
          (
            elim status [ none ↦ ret | some text ↦ negsuc 0 ],
            record { db = db'; outstanding_task_count = outstanding },
          ))
