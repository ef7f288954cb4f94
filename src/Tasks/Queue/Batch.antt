-- ===== src/Tasks/Queue/Batch.antt =====
-- What batchProcessing, schedule and scheduleOpaque of infra/ScheduledTaskQueue.h and
-- ScheduledTaskQueue.cpp make of the database.
use smyte_db.Prelude.{
  ℕ, suc, ◌+◌, ◌-◌, ◌%◌, ◌^◌, ◌<◌, ◌≤◌, ◌≡◌, refl, ap, ◌∙◌, List, [], ◌∷◌, Bool, false, ◌||◌, ◌&&◌,
  Option, none, some, length, if◌then◌else◌, arith, All, bytes_eq, map, Bool-cases, inl, inr,
  lt→ltb,
}
use smyte_db.Prelude.Int.{pos, leb_ℤ}
use smyte_db.Endian.{Endian}
use smyte_db.RocksDb.{RocksDb, Ascending}
use smyte_db.Tasks.{ScheduledTask}
use smyte_db.Tasks.Keys.{IsNew}
use smyte_db.Tasks.Queue.{
  State, delete_completed, finish_batch, batch_processing, schedule_with_write_batch, schedule_all,
  schedule_opaque,
}
use smyte_db.Tasks.Queue.Scan.{entry_of, due, up_to, scan_pending_tasks-due}

abbrev pub completed_count : List ScheduledTask → ℕ
completed_count [] = 0
completed_count (t ∷ ts) = let n = completed_count ts in if t.completed then suc n else n

-- Whether a key is that of a completed task.
abbrev pub is_completed : List ℕ → List ScheduledTask → Bool
is_completed k [] = false
is_completed k (t ∷ ts) = let rest = is_completed k ts in t.completed && bytes_eq k t.key || rest

-- The value of the last task with a key.
abbrev pub last_value : List ℕ → List ScheduledTask → Option (List ℕ) → Option (List ℕ)
last_value k [] o = o
last_value k (t ∷ ts) o = last_value k ts (if bytes_eq k t.key then some t.value else o)

module _ (e : Endian) (rocks : RocksDb) (column_family : rocks.Family) where
  open rocks use {
    Db, Batch, empty_batch, put, delete, write, get, entries, after, after-empty, after-put,
    after-delete, get-write,
  }

  completed_count_lem :
      (ts : List ScheduledTask) (b : Batch)
      → (delete_completed e rocks column_family ts b).0 ≡ completed_count ts
  unfolding delete_completed
  completed_count_lem [] b = refl
  completed_count_lem (t ∷ ts) b = elim (Bool-cases t.completed) [
    | inl done ↦ rw done (ap suc (completed_count_lem ts (delete column_family t.key b)))
    | inr open_task ↦ rw open_task (completed_count_lem ts b)
  ]

  after-delete_completed :
      (k : List ℕ) (ts : List ScheduledTask) (b : Batch) (o : Option (List ℕ))
      → after column_family k (delete_completed e rocks column_family ts b).1 o
        ≡ (if is_completed k ts then none else after column_family k b o)
  unfolding delete_completed
  after-delete_completed k [] b o = refl
  after-delete_completed k (t ∷ ts) b o = elim (Bool-cases t.completed) [
    | inl done ↦ rw done (
        after-delete_completed k ts (delete column_family t.key b) o
        ∙ ap (λ v. if is_completed k ts then none else v) (after-delete column_family k t.key b o)
        ∙ either (is_completed k ts) (bytes_eq k t.key) (after column_family k b o))
    | inr open_task ↦ rw open_task (after-delete_completed k ts b o)
  ]
    where
      either :
          (x y : Bool) (v : Option (List ℕ))
          → (if x then none else (if y then none else v)) ≡ (if y || x then none else v)
      either x y v = ground arith

  -- What a batch leaves behind for its processed tasks.
  pub record Processed (s : State e rocks column_family) (tasks : List ScheduledTask)
      (batch : Batch) (s' : State e rocks column_family) : Type 0 where
    pub count : s'.outstanding_task_count ≡ s.outstanding_task_count - completed_count tasks
    pub values :
        (k : List ℕ)
        → get column_family k s'.db ≡ (
            if is_completed k tasks
            then none
            else after column_family k batch (get column_family k s.db))

  finish_batch_lem :
      (s : State e rocks column_family) (n : ℕ) (tasks : List ScheduledTask) (batch : Batch)
      → ((b : Batch) → (write b s.db).0 ≡ none)
      → completed_count tasks ≤ s.outstanding_task_count
      → s.outstanding_task_count < 2 ^ 64
      → (s' : State e rocks column_family) × (finish_batch e rocks column_family s n (tasks, batch)
          ≡ some (n, s'))
        × Processed s tasks batch s'
  unfolding finish_batch
  finish_batch_lem s n tasks batch ok enough fits =
      let d = delete_completed e rocks column_family tasks batch in
      (
        record {
          db = (write d.1 s.db).1;
          outstanding_task_count = (s.outstanding_task_count + 2 ^ 64 - d.0) % 2 ^ 64;
        },
        rw (ok d.1, finish_batch) refl,
        record {
          count = rw (completed_count_lem tasks batch) (omega arith);
          values = λ k.
              get-write column_family k d.1 s.db (ok d.1)
              ∙ after-delete_completed k tasks batch (get column_family k s.db);
        },
      )

  -- Suppose that the entries of the queue's column family, in ascending order of their keys, are
  -- those of new tasks, one of which is due; that writes to the database succeed; and that the
  -- count of outstanding tasks covers the completed ones. Then batchProcessing passes the due tasks,
  -- up to the limit, to the processor and returns their number; the count falls by the completed
  -- tasks, and a key is gone if it is that of a completed task and else has the value that the
  -- processor's batch gives it.
  pub batch_processing_lem :
      (process : List ScheduledTask → Batch → List ScheduledTask × Batch)
      (s : State e rocks column_family) (ts : List ScheduledTask) (max limit : ℕ)
      → entries column_family s.db ≡ map entry_of ts
      → All (IsNew e) ts
      → Ascending (entries column_family s.db)
      → max < 9223372036854775808
      → 0 < length (up_to limit (due max ts))
      → ((b : Batch) → (write b s.db).0 ≡ none)
      → completed_count (process (up_to limit (due max ts)) empty_batch).0
        ≤ s.outstanding_task_count
      → s.outstanding_task_count < 2 ^ 64
      → let r = process (up_to limit (due max ts)) empty_batch in
        (s' : State e rocks column_family) × (batch_processing e rocks column_family process limit s
            (pos max)
          ≡ some (length (up_to limit (due max ts)), s'))
        × Processed s r.0 r.1 s'
  unfolding batch_processing
  batch_processing_lem process s ts max limit es h a hm some_due ok enough fits =
      let r = process (up_to limit (due max ts)) empty_batch in
      let f = finish_batch_lem s (length (up_to limit (due max ts))) r.0 r.1 ok enough fits in
      (
        f.0,
        rw
            (
              scan_pending_tasks-due e rocks column_family s.db ts max limit es h a hm,
              batch_processing,
            )
            (rw (lt→ltb 0 (length (up_to limit (due max ts))) some_due) f.1),
        f.2,
      )

  after-schedule_all :
      (k : List ℕ) (ts : List ScheduledTask) (b : Batch) (n : ℕ) (o : Option (List ℕ))
      → after column_family k (schedule_all e rocks column_family ts (b, n)).0 o
        ≡ last_value k ts (after column_family k b o)
  unfolding schedule_all schedule_with_write_batch
  after-schedule_all k [] b n o = refl
  after-schedule_all k (t ∷ ts) b n o =
      after-schedule_all k ts (put column_family t.key t.value b) ((n + 1) % 2 ^ 64) o
      ∙ ap (last_value k ts) (after-put column_family k t.key t.value b o)

  -- If the processor generates tasks for an opaque key and the write succeeds, scheduleOpaque
  -- returns what the processor did, and each key has the value of the last generated task with that
  -- key, or its former value if there is none.
  pub schedule_opaque_lem :
      (ret : ℕ) (tasks : List ScheduledTask) (s : State e rocks column_family)
      → 0 < ret
      → ((b : Batch) → (write b s.db).0 ≡ none)
      → let r = schedule_opaque e rocks column_family (pos ret, tasks) s in
        (r.0 ≡ pos ret)
        × ((k : List ℕ)
            → get column_family k r.1.db ≡ last_value k tasks (get column_family k s.db))
  unfolding schedule_opaque
  schedule_opaque_lem ret tasks s positive ok =
      let b = schedule_all e rocks column_family tasks (empty_batch, s.outstanding_task_count) in
      let q : leb_ℤ (pos ret) (pos 0) ≡ false = ground arith in
      rw q (
        rw (ok b.0) refl,
        λ k.
            (get-write column_family k b.0 s.db (ok b.0)
              ∙ after-schedule_all k tasks empty_batch s.outstanding_task_count
                  (get column_family k s.db)
              ∙ ap (last_value k tasks) (after-empty column_family k (get column_family k s.db))),
      )
