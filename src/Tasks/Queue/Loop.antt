-- ===== src/Tasks/Queue/Loop.antt =====
-- The execution thread that start of infra/ScheduledTaskQueue.cpp creates. Rounds are counted by fuel.
pub mod Ends
mod Examples
use smyte_db.Prelude.{ℕ, zero, suc, List, Bool, Option, none, some, ◌==◌, if◌then◌else◌}
use smyte_db.Prelude.Int.{ℤ, pos, ◌+ℤ◌}
use smyte_db.Endian.{Endian}
use smyte_db.RocksDb.{RocksDb}
use smyte_db.Tasks.{ScheduledTask}
use smyte_db.Tasks.Queue.{State, batch_processing}

-- A loop that a failed CHECK has ended, that runs on, or that is done.
pub data Ran (S : Type 0) : Type 0 where
  aborted : Ran S
  running : S → Ran S
  done : S → Ran S

abbrev pub and_then : {S : Type 0} → Ran S → (S → Ran S) → Ran S
and_then aborted f = aborted
and_then (running s) f = running s
and_then (done s) f = f s

module _ (e : Endian) (rocks : RocksDb) (column_family : rocks.Family)
    (process : List ScheduledTask → rocks.Batch → List ScheduledTask × rocks.Batch)
    (batch_size : ℕ) where
  abbrev pub Queue : Type 0
  Queue = State e rocks column_family

  -- A batch at a time, until one is not full.
  unfoldable pub exhaust : ℤ → ℕ → Queue → Ran Queue
  exhaust max_timestamp_ms zero s = running s
  exhaust max_timestamp_ms (suc n) s =
      elim (batch_processing e rocks column_family process batch_size s max_timestamp_ms) [
        | none ↦ aborted
        | some (count, s') ↦
            let rest = exhaust max_timestamp_ms n s' in
            if count == batch_size then rest else done s'
      ]

  -- The rounds from one on: the flag run_ and the clock at the head of each. Each has the same fuel for its
  -- batches.
  unfoldable pub execute : (ℕ → Bool) → (ℕ → ℤ) → ℕ → ℕ → ℕ → Queue → Ran Queue
  execute run clock batches zero round s = running s
  execute run clock batches (suc n) round s =
      let rest =
        and_then (exhaust (clock round +ℤ pos 1) batches s)
          (λ s'. execute run clock batches n (suc round) s') in
      if run round then rest else done s
